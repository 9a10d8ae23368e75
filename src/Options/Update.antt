-- ===== src/Options/Update.antt =====
-- tmux/options.go: `updateArray`, one command for each update, and what is known when one fails.
use gotmux.Prelude.{
  ℕ, zero, suc, ◌^◌, ◌≡◌, ◌≢◌, Bool, true, false, ◌&&◌, Option, none, some, List, [], ◌∷◌, ◌++◌,
  Bytes, codes, err_invalid, Result, ok, err, ◌>>=◌, leb, if◌then◌else◌,
}
use gotmux.Prelude.Decimal.{itoa}
use gotmux.Prelude.Int.{ℤ, pos, negsuc}
use gotmux.Wire.Argv.{valid_string}
use gotmux.Options.{OptionTarget, target_args, whole_name}

pub record ArrayUpdate : Type 0 where
  pub index : ℤ
  pub value : Bytes
  pub unset : Bool

unfoldable pub valid_index : ℤ → Bool
valid_index (pos n) = leb n (2 ^ 30)
valid_index (negsuc n) = false

-- `validateArrayUpdates` returns no error.
unfoldable pub valid_updates : List ArrayUpdate → Bool
valid_updates [] = true
valid_updates (u ∷ updates) = valid_index u.index && valid_string u.value && valid_updates updates

unfoldable pub index_text : ℤ → Bytes
index_text (pos n) = itoa n
index_text (negsuc n) = b'-' ∷ itoa (suc n)

-- `updateArrayStepArgs`
unfoldable pub step_args : OptionTarget → Bytes → ArrayUpdate → List Bytes
step_args t name u =
    let key = name ++ (b'[' ∷ (index_text u.index ++ codes "]")) in
    if u.unset
    then target_args t ++ codes "-u" ∷ codes "--" ∷ key ∷ []
    else target_args t ++ codes "--" ∷ key ∷ u.value ∷ []

pub data Effect : Type 0 where
  effect_unspecified effect_not_sent effect_unknown effect_confirmed effect_rejected : Effect

pub record StepOutcome : Type 0 where
  pub index : ℕ
  pub effect : Effect

-- The error of a failed update: the effect on the whole, and that of each step.
pub record UpdateError : Type 0 where
  pub effect : Effect
  pub steps : List StepOutcome

pub record UpdateResult : Type 0 where
  pub applied : List ℕ
  pub error : Option UpdateError

-- `steps[i].Effect = e`
unfoldable pub set_effect : ℕ → Effect → List StepOutcome → List StepOutcome
set_effect i e [] = []
set_effect zero e (s ∷ steps) = record { index = s.index; effect = e } ∷ steps
set_effect (suc i) e (s ∷ steps) = s ∷ set_effect i e steps

unfoldable pub initial_steps : ℕ → List ArrayUpdate → List StepOutcome
initial_steps i [] = []
initial_steps i (u ∷ updates) =
    record { index = i; effect = effect_not_sent } ∷ initial_steps (suc i) updates

-- `if i > 0 && aggregate == EffectNotSent`
unfoldable pub aggregate : ℕ → Effect → Effect
aggregate (suc i) effect_not_sent = effect_unknown
aggregate _ e = e

-- `execute` of the command of step `i`: the effect that its error's outcome has, or no error.
abbrev pub Execute : Type 0
Execute = ℕ → List Bytes → Option Effect

unfoldable pub update_loop :
    Execute → OptionTarget → Bytes → ℕ → List ArrayUpdate → List ℕ → List StepOutcome → UpdateResult
update_loop execute t base i [] applied steps = record { applied = applied; error = none }
update_loop execute t base i (u ∷ updates) applied steps = elim (execute i (step_args t base u)) [
  | some e ↦ record {
    applied = applied;
    error = some (record { effect = aggregate i e; steps = set_effect i e steps });
  }
  | none ↦
      update_loop execute t base (suc i) updates (applied ++ i ∷ [])
        (set_effect i effect_confirmed steps)
]

unfoldable pub update_array :
    Execute → OptionTarget → Bytes → List ArrayUpdate → Result UpdateResult
update_array execute t name updates = whole_name name >>= λ base.
    if valid_updates updates
    then ok (update_loop execute t base 0 updates [] (initial_steps 0 updates))
    else err err_invalid

-- The numbers from `i` on, as many as there are updates.
abbrev pub count_from : ℕ → List ArrayUpdate → List ℕ
count_from i [] = []
count_from i (u ∷ updates) = i ∷ count_from (suc i) updates

abbrev pub confirmed : ℕ → List ArrayUpdate → List StepOutcome
confirmed i [] = []
confirmed i (u ∷ updates) =
    record { index = i; effect = effect_confirmed } ∷ confirmed (suc i) updates

-- The commands of these updates succeed.
abbrev pub AllSucceed : Execute → OptionTarget → Bytes → ℕ → List ArrayUpdate → Type 0
AllSucceed execute t base i [] = Unit
AllSucceed execute t base i (u ∷ updates) =
    (execute i (step_args t base u) ≡ none) × AllSucceed execute t base (suc i) updates

-- The index behind those of the updates.
abbrev after : ℕ → List ArrayUpdate → ℕ
after i [] = i
after i (u ∷ updates) = after (suc i) updates

-- The effect of the whole, by the updates that were applied and the effect of the error.
pub data WholeEffect : List ArrayUpdate → Effect → Effect → Type 0 where
  partly_sent :
      {u : ArrayUpdate} {done : List ArrayUpdate}
      → WholeEffect (u ∷ done) effect_not_sent effect_unknown
  nothing_sent : WholeEffect [] effect_not_sent effect_not_sent
  sent : {done : List ArrayUpdate} {e : Effect} → e ≢ effect_not_sent → WholeEffect done e e
