-- ===== src/Scheduler/Binding.antt =====
-- src/scheduler.rs: a change of the pool of buffers, of a size or of a configuration.
use wwe_modify.Base.{
  ℕ, ◌≤◌, Bool, true, false, Option, none, some, List, ◌≡◌, sym, ◌∙◌, arith, ℕ_discrete, inl, inr,
}
use wwe_modify.Base.Tests.{◌==◌, is_some, Option-cases}
use wwe_modify.Base.Map.{
  Map, map_values, get, Unique, get-modify, get-map_values, get-retain_entries, modify-Unique,
  map_values-Unique, retain-Unique,
}
use wwe_modify.Scheduler.Pending.{owed_on}
use wwe_modify.Scheduler.{
  DisplayId, DisplayInfo, ActiveBinding, FrameKey, FrameKey-discrete, Scheduler,
  update_display_size, set_bound, retire, set_active_binding, clear_active_binding, project_config,
}
use wwe_modify.Scheduler.Soundness.{IsSound, IsCurrent, display}
use wwe_modify.Base.Words.{F32}

pub update_display_size-IsSound :
    (id : DisplayId) (w h : ℕ) (s : Scheduler) → IsSound s → IsSound (update_display_size id w h s)
unfolding update_display_size
update_display_size-IsSound id w h s v = record {
  displays_unique = modify-Unique ℕ_discrete id resize s.displays v.displays_unique;
  pending_unique = v.pending_unique;
  keyed = λ j d e. elim (Option-cases (display j s)) [
    | inl m ↦ absurd (ground (arith, get-modify ℕ_discrete j id resize s.displays))
    | inr (o, m) ↦ ground (arith, get-modify ℕ_discrete j id resize s.displays, v.keyed j o m)
  ];
  current = v.current;
  owing = v.owing;
  known = λ k owed j e m. elim (Option-cases (display j s)) [
    | inl n ↦ ground (arith, get-modify ℕ_discrete j id resize s.displays, v.known k owed j e m)
    | inr (o, n) ↦
        ground (arith, get-modify ℕ_discrete j id resize s.displays, v.known k owed j e m)
  ];
}
  where
    resize : DisplayInfo → DisplayInfo
    resize d = record d { width = w; height = h }

retire-Unique :
    (old : Option ActiveBinding) (g : ℕ) (m : Map FrameKey (List DisplayId))
    → Unique FrameKey-discrete m
    → Unique FrameKey-discrete (retire old g m)
unfolding retire
retire-Unique none g m u = u
retire-Unique (some old) g m u =
    ground (arith, u, retain-Unique FrameKey-discrete (λ key owed. key.generation == g) m u)

-- What is in flight after a change of pool was in flight before, and belongs to the new pool.
retired :
    (old : Option ActiveBinding) (g : ℕ) (m : Map FrameKey (List DisplayId)) (k : FrameKey)
    (owed : List DisplayId)
    → Unique FrameKey-discrete m
    → (owed_on k m ≡ some owed → IsCurrent k.generation old)
    → owed_on k (retire old g m) ≡ some owed
    → (owed_on k m ≡ some owed) × (k.generation ≡ g)
unfolding retire
retired none g m k owed u c e = absurd (c e)
retired (some old) g m k owed u c e = ground (
  arith,
  c,
  get-retain_entries FrameKey-discrete k (λ key owed. key.generation == g) m u,
  Option-cases (owed_on k m),
)

module _ (s : Scheduler) (v : IsSound s) where
  module _ (b : Bool) where
    rebound :
        (j : DisplayId) (d : DisplayInfo)
        → get ℕ_discrete j (map_values (set_bound b) s.displays) ≡ some d
        → (d.id ≡ j) × (j ≤ s.next_display_id) × (d.bound ≡ b)
    rebound j d e = elim (Option-cases (display j s)) [
      | inl m ↦ absurd (ground (arith, get-map_values ℕ_discrete j (set_bound b) s.displays))
      | inr (o, m) ↦
          ground (arith, get-map_values ℕ_discrete j (set_bound b) s.displays, v.keyed j o m)
    ]

    still_known :
        (j : DisplayId)
        → is_some (get ℕ_discrete j (map_values (set_bound b) s.displays)) ≡ is_some (display j s)
    still_known j = elim (Option-cases (display j s)) [
      | inl m ↦ ground (arith, get-map_values ℕ_discrete j (set_bound b) s.displays)
      | inr (o, m) ↦ ground (arith, get-map_values ℕ_discrete j (set_bound b) s.displays)
    ]

  pub set_active_binding-IsSound : (b : ActiveBinding) → IsSound (set_active_binding b s).1
  unfolding set_active_binding
  set_active_binding-IsSound b = record {
    displays_unique = map_values-Unique ℕ_discrete (set_bound true) s.displays v.displays_unique;
    pending_unique = retire-Unique s.active b.buffer_generation s.pending v.pending_unique;
    keyed = rebound true;
    current = λ k owed e. sym (kept k owed e).1;
    owing = λ k owed e. v.owing k owed (kept k owed e).0;
    known = λ k owed id e m. still_known true id ∙ v.known k owed id (kept k owed e).0 m;
  }
    where
      kept :
          (k : FrameKey) (owed : List DisplayId)
          → owed_on k (retire s.active b.buffer_generation s.pending) ≡ some owed
          → (owed_on k s.pending ≡ some owed) × (k.generation ≡ b.buffer_generation)
      kept k owed =
          retired s.active b.buffer_generation s.pending k owed v.pending_unique (v.current k owed)

  pub clear_active_binding-IsSound : IsSound (clear_active_binding s).1
  unfolding clear_active_binding get
  clear_active_binding-IsSound = record {
    displays_unique = map_values-Unique ℕ_discrete (set_bound false) s.displays v.displays_unique;
    pending_unique = tt;
    keyed = rebound false;
    current = λ k owed e. absurd (ground arith);
    owing = λ k owed e. absurd (ground arith);
    known = λ k owed id e m. absurd (ground arith);
  }

  with_generation : (g : ℕ) → IsSound (record s { next_config_generation = g })
  with_generation g = record {
    displays_unique = v.displays_unique;
    pending_unique = v.pending_unique;
    keyed = v.keyed;
    current = v.current;
    owing = v.owing;
    known = v.known;
  }

  pub project_config-IsSound :
      (as_f32 : ℕ → F32) (id : DisplayId) → IsSound (project_config as_f32 id s).1
  unfolding project_config
  project_config-IsSound as_f32 id = elim (Option-cases s.active) [
    | inl e ↦ rw (e, project_config) v
    | inr (b, e) ↦ elim (Option-cases (display id s)) [
      | inl m ↦ rw (e, m, project_config) v
      | inr (d, m) ↦ rw (e, m, project_config) (with_generation _)
    ]
  ]
