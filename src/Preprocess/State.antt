-- ===== src/Preprocess/State.antt =====
-- preprocess.c: the state that the directives change, and what the preprocessing of a list of
-- tokens gives.
use chibicc.Common.{ℕ, Bool, Option, List}
use chibicc.Tokenize.Result.{Result}
use chibicc.Preprocess.Stream.{Stream}
use chibicc.Preprocess.Macro.{Macros}

pub data CondContext : Type 0 where
  in_then in_elif in_else : CondContext

-- The token of the directive, which messages name, is left out.
pub record CondIncl : Type 0 where
  pub ctx : CondContext
  pub included : Bool

pub record State : Type 0 where
  pub macros : Macros
  pub cond_incl : List CondIncl

-- The tokens are linked in place: from the first one on that is passed on, the list that was
-- preprocessed is the list that comes out. `own` has the number of tokens from there on in the list
-- that went in, that one counted, and the number of tokens before it in the list that comes out.
-- Not kept is the place that a macro with an empty body writes into a token of the list that is
-- expanded itself.
pub record Preprocessed : Type 0 where
  pub out : Stream
  pub own : Option (ℕ × ℕ)
  pub state : State

abbrev pub Preprocessor : Type 0
Preprocessor = State → Stream → Result Preprocessed
