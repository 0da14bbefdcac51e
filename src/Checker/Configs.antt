-- ===== src/Checker/Configs.antt =====
-- instancecheck/checker.go: which configurations a check reads as a sharded or as an ordinary round.
use dogx.Common.{
  ℕ, ◌≡◌, refl, ◌==◌, subst, Bool, true, false, Option, none, some, arith, Bool-cases, inl, inr,
}
use dogx.Model.Instance.{ExecutionMode}
use dogx.Database.{invalid_config, Result, ok, err}
use dogx.Checker.{CheckConfig, check_config}

abbrev pub IsSharded : Option CheckConfig → Type 0
IsSharded none = ⊥
IsSharded (some c) = (c.schema_version ≡ some 1) × (c.execution_mode ≡ some ExecutionMode.sharded)

abbrev pub IsOrdinary : Option CheckConfig → Type 0
IsOrdinary none = ⊥
IsOrdinary (some c) =
    (c.schema_version ≡ some 1)
    × (c.execution_mode ≡ some ExecutionMode.normal)
    × (c.post_enabled ≡ some false)

pub data ConfigOf (o : Option CheckConfig) : Result Bool → Type 0 where
  sharded_round : IsSharded o → ConfigOf o (ok false)
  ordinary_round : IsOrdinary o → ConfigOf o (ok true)
  unusable : ¬ IsSharded o → ¬ IsOrdinary o → ConfigOf o (err invalid_config)

post_ConfigOf :
    (p : Option Bool)
    → let o : Option CheckConfig = some (record {
      schema_version = some 1;
      execution_mode = some ExecutionMode.normal;
      post_enabled = p;
    }) in
      ConfigOf o (check_config o)
unfolding check_config
post_ConfigOf none = unusable (λ s. cc) (λ s. cc)
post_ConfigOf (some true) = unusable (λ s. cc) (λ s. cc)
post_ConfigOf (some false) = ordinary_round (refl, refl, refl)

mode_ConfigOf :
    (m : Option ExecutionMode) (p : Option Bool)
    → let o : Option CheckConfig =
        some (record { schema_version = some 1; execution_mode = m; post_enabled = p }) in
      ConfigOf o (check_config o)
unfolding check_config
mode_ConfigOf none p = unusable (λ s. cc) (λ s. cc)
mode_ConfigOf (some ExecutionMode.sharded) p = sharded_round (refl, refl)
mode_ConfigOf (some (ExecutionMode.unknown n)) p = unusable (λ s. cc) (λ s. cc)
mode_ConfigOf (some ExecutionMode.normal) p = post_ConfigOf p

version_ConfigOf :
    (v : Option ℕ) (m : Option ExecutionMode) (p : Option Bool)
    → let o : Option CheckConfig =
        some (record { schema_version = v; execution_mode = m; post_enabled = p }) in
      ConfigOf o (check_config o)
unfolding check_config
version_ConfigOf none m p = unusable (λ s. cc) (λ s. cc)
version_ConfigOf (some v) m p = elim (Bool-cases (v == 1)) [
  | inl e ↦
      let same : 1 ≡ v = ground arith in
      subst
        (λ k.
          let o : Option CheckConfig =
            some (record { schema_version = some k; execution_mode = m; post_enabled = p }) in
          ConfigOf o (check_config o))
        same (mode_ConfigOf m p)
  | inr e ↦
      let o : Option CheckConfig =
        some (record { schema_version = some v; execution_mode = m; post_enabled = p }) in
      subst (ConfigOf o) (ground arith) (
        unusable (λ s. absurd (let a = s.0 in ground arith))
          (λ s. absurd (let a = s.0 in ground arith)))
]

pub check_config-ConfigOf : (o : Option CheckConfig) → ConfigOf o (check_config o)
unfolding check_config
check_config-ConfigOf none = unusable (λ s. s) (λ s. s)
check_config-ConfigOf (some c) = version_ConfigOf c.schema_version c.execution_mode c.post_enabled
