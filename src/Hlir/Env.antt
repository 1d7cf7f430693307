-- ===== src/Hlir/Env.antt =====
-- ir/hlir_opt.c: `HLIREnv`, what a pass knows of the values of the current block.
use chibicc.Common.{ℕ, Bool, Option, none, some, ltb, ◌==◌, ◌&&◌, if◌then◌else◌}
use chibicc.Hlir.{HlirInsn}

-- `is_const` and `const_vals` together are `consts`; `track_defs` says that `defs` is allocated.
pub record HlirEnv : Type 0 where
  pub num_vals : ℕ
  pub consts : ℕ → Option ℕ
  pub track_defs : Bool
  pub defs : ℕ → Option HlirInsn

abbrev pub update {ℓ} : {A : Type ℓ} → (ℕ → A) → ℕ → A → ℕ → A
update f k v q = if q == k then v else f q

abbrev pub hlir_env_init : ℕ → Bool → HlirEnv
hlir_env_init n track = record {
  num_vals = n;
  consts = λ _. none;
  track_defs = track;
  defs = λ _. none;
}

abbrev pub hlir_env_reset : HlirEnv → HlirEnv
hlir_env_reset env = record env { consts = λ _. none; defs = λ _. none }

abbrev pub hlir_env_set_const : HlirEnv → Option ℕ → ℕ → HlirEnv
hlir_env_set_const env none imm = env
hlir_env_set_const env (some v) imm = record env {
  consts = if ltb v env.num_vals then update env.consts v (some imm) else env.consts;
}

abbrev pub hlir_env_set_def : HlirEnv → Option ℕ → HlirInsn → HlirEnv
hlir_env_set_def env none insn = env
hlir_env_set_def env (some v) insn = record env {
  defs = if env.track_defs && ltb v env.num_vals then update env.defs v (some insn) else env.defs;
}

abbrev pub hlir_env_get_const : HlirEnv → Option ℕ → Option ℕ
hlir_env_get_const env none = none
hlir_env_get_const env (some v) = if ltb v env.num_vals then env.consts v else none

abbrev pub hlir_env_get_def : HlirEnv → Option ℕ → Option HlirInsn
hlir_env_get_def env none = none
hlir_env_get_def env (some v) = if env.track_defs && ltb v env.num_vals then env.defs v else none
