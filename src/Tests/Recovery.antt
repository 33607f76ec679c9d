-- ===== src/Tests/Recovery.antt =====
-- A recovery under a clock that moves on by a second at each reading, and between the samples.
use subgen_english_plex.Common.{
  ◌≤◌, ℕ, ◌+◌, ◌≡◌, refl, Bool, true, false, Option, none, some, List, [], ◌∷◌, ok, arith, ◌||◌,
  subst, sym, if◌then◌else◌,
}
use subgen_english_plex.Common.Action.{Action, Outcome, pure, throw, lift, gets, modify, ◌>>=◌}
use subgen_english_plex.Resource.Admission.{ModelLoadRequirement, PressureSample}
use subgen_english_plex.Resource.Pressure.{
  Phase, Settings, PressureController, Node, current, update, consult, change,
}
use subgen_english_plex.Resource.Pressure.Create.{new_controller}
use subgen_english_plex.Resource.Pressure.Polling.{release_with}
use subgen_english_plex.Resource.Pressure.Gauge.{grew, reason_if}
use subgen_english_plex.Resource.Pressure.Phases.{is_some_reason}
use subgen_english_plex.Resource.Pressure.{PressureReason}
use subgen_english_plex.Resource.Admission.{is_recent}
use subgen_english_plex.Resource.Pressure.Observe.{
  classify, gpu_fresh, any_admitted, recovery_qualified,
}
use subgen_english_plex.Resource.Pressure.Recovers.{IsHealthy, IsSteady}
use subgen_english_plex.Resource.Pressure.Timed.{In, Nowhere}
use subgen_english_plex.Resource.Pressure.Recovers.Ends.{Coming, observe_each, recovery_ends}
use subgen_english_plex.Tests.Pressure.{small, evidence, settings, sample_at, inputs}

-- Without a signal, three healthy samples end a recovery.
abbrev unsignalled : Settings ModelLoadRequirement
unsignalled = record settings { priority_configured = false }

abbrev released : Node ModelLoadRequirement ℕ
released = record {
  controller = release_with none (new_controller unsignalled (small ∷ []));
  world = 1_000_000;
}

no_ooms :
    (a b : Option ℕ)
    → is_some_reason (reason_if (grew a none || grew b none) PressureReason.cgroup_oom) ≡ false
no_ooms none none = refl
no_ooms none (some n) = refl
no_ooms (some m) none = refl
no_ooms (some m) (some n) = refl

-- `recovery_qualified` behind its reading of the requirements.
abbrev qualified :
    PressureSample → List ModelLoadRequirement → Action (Node ModelLoadRequirement ℕ) Bool
qualified x rs =
    (elim rs [ [] ↦ pure true | r ∷ more ↦ gpu_fresh unsignalled inputs x ]) >>= λ fresh.
    if fresh then any_admitted evidence unsignalled inputs x rs else pure false

abbrev QualifiesWith :
    (PressureController ModelLoadRequirement → Type 0)
    → (ℕ → Type 0)
    → PressureSample
    → List ModelLoadRequirement
    → Node ModelLoadRequirement ℕ
    → Type 0
QualifiesWith I P' x rs n = Outcome (λ b. In (λ c. I c × (b ≡ true)) P') Nowhere (qualified x rs n)

-- Between a time and some microseconds behind it.
abbrev Within : ℕ → ℕ → ℕ → Type 0
Within t slack w = (t ≤ w) × (w ≤ t + slack)

recent_within :
    (t slack w : ℕ) → slack ≤ 9_000_000 → Within t slack w → is_recent 10_000_000 w t ≡ true
unfolding is_recent
recent_within t slack w h i = ground arith

-- The qualification reads the clock once, a second passes.
sample-IsHealthy :
    (t slack : ℕ)
    → slack ≤ 9_000_000
    → IsHealthy evidence unsignalled inputs
        (small ∷ [])
        (Within t slack)
        (Within t (slack + 1_000_000))
        (sample_at t)
        t
unfolding classify gpu_fresh recovery_qualified current update consult change gets modify lift pure
    throw ◌>>=◌
sample-IsHealthy t slack short = record {
  classified = Within t slack;
  checked = Within t slack;
  timed = refl;
  calm = λ I h. record {
    holds = record {
      at = λ n i. (
        (
          h n.controller i.0,
          no_ooms n.controller.last_oom_events n.controller.last_oom_kill_events,
        ),
        i.1,
      );
    };
  };
  fresh = λ I. record { holds = record { at = λ n i. ((i.0, refl), i.1) } };
  qualifies = λ I h. record {
    holds = record {
      at = λ n i.
          subst (λ rs. QualifiesWith I (Within t (slack + 1_000_000)) (sample_at t) rs n)
            (sym (h n.controller i.0))
            (rw (recent_within t slack n.world short i.1)
              ((i.0, refl), (omega (arith, i.1.0), omega (arith, i.1.1))));
    };
  };
  unasked = λ w i. (i.0, omega (arith, i.1));
}

-- Three samples, a second apart.
abbrev coming_at : ℕ → Coming ℕ
coming_at t = record { sample = sample_at t; time = t; meanwhile = λ w. w + 1_000_000 }

abbrev three_samples : List (Coming ℕ)
three_samples = coming_at 2_000_000 ∷ coming_at 3_000_000 ∷ coming_at 4_000_000 ∷ []

later : (t slack w : ℕ) → Within t slack w → Within (t + 1_000_000) slack (w + 1_000_000)
later t slack w i = (omega (arith, i.0), omega (arith, i.1))

released-IsSteady : IsSteady unsignalled (small ∷ []) released.controller
released-IsSteady = record { ready = refl; wanted = refl; left = refl }

recovery_ends_example :
    (n' : Node ModelLoadRequirement ℕ) × (observe_each evidence unsignalled inputs false false
        three_samples released
      ≡ (ok Phase.normal, n'))
    × (n'.controller.phase ≡ Phase.normal)
    × (n'.controller.admission_open ≡ true)
recovery_ends_example =
    recovery_ends evidence unsignalled inputs (small ∷ []) false false released (Within 1_000_000 0)
      three_samples (omega arith, omega arith) refl released-IsSteady (omega arith) (omega arith)
      (
        Within 2_000_000 0,
        Within 2_000_000 1_000_000,
        later 1_000_000 0,
        refl,
        sample-IsHealthy 2_000_000 0 (omega arith),
        (
          Within 3_000_000 1_000_000,
          Within 3_000_000 2_000_000,
          later 2_000_000 1_000_000,
          refl,
          sample-IsHealthy 3_000_000 1_000_000 (omega arith),
          (
            Within 4_000_000 2_000_000,
            Within 4_000_000 3_000_000,
            later 3_000_000 2_000_000,
            refl,
            sample-IsHealthy 4_000_000 2_000_000 (omega arith),
            tt,
          ),
        ),
      )
