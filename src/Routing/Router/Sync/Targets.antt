-- ===== src/Routing/Router/Sync/Targets.antt =====
-- src/routing/router.rs, sync_display: the pool of the display's link, and what is sent for it.
use wwe_modify.Base.{
  List, [], ◌∷◌, ◌++◌, ◌⊎◌, ℕ, Bool, true, false, not, Option, none, some, inl, inr, ◌≡◌, refl, sym,
  ap, ◌∙◌, arith, ℕ_discrete,
}
use wwe_modify.Base.Tests.{◌==◌, if◌then◌else◌, Option-cases, Bool-cases}
use wwe_modify.Base.Map.{get, get-modify}
use wwe_modify.Display.Layout.{F32Ops}
use wwe_modify.Routing.Table.{DisplayId, RendererId, Link, RoutingTable}
use wwe_modify.Routing.Router.{
  FrameSnapshot, DisplayOutEvent, bind, unbind, set_config, frame, RendererObject, DisplayState,
  Router, display, set_display,
}
use wwe_modify.Routing.Router.Sync.{
  replay_of, next_config, retire, await_unbind, bind_new, rebind, sync_found, sync_display,
  target_of, gated, needs_update,
}
use wwe_modify.Scheduler.{ProjectedConfig}
use wwe_modify.Routing.Router.Project.{project_link, resolved_layout_for_renderer}
use wwe_modify.Routing.Router.Sync.Stream.{
  tested_same, IsInStep, rebound, rebound-IsInStep, rebind-displays,
}

-- The pool that the link asks for.
abbrev pub wanted : Option (Link × ℕ) → Option RendererId × Option ℕ
wanted none = (none, none)
wanted (some (l, g)) = (some l.renderer_id, some g)

abbrev pub bound_pool : DisplayState → Option RendererId × Option ℕ
bound_pool st = (st.last_renderer, st.last_buffer_generation)

needs_update-false :
    (t : Option (Link × ℕ)) (r : Option RendererId) (g : Option ℕ)
    → needs_update r g t ≡ false
    → (r, g) ≡ wanted t
unfolding needs_update
needs_update-false none none none h = refl
needs_update-false none none (some g) h = absurd cc
needs_update-false none (some r) none h = absurd cc
needs_update-false none (some r) (some g) h = absurd cc
needs_update-false (some (l, k)) none none h = absurd cc
needs_update-false (some (l, k)) none (some g) h = absurd cc
needs_update-false (some (l, k)) (some r) none h = absurd cc
needs_update-false (some (l, k)) (some r) (some g) h = ground arith

needs_update-wanted : (t : Option (Link × ℕ)) → needs_update (wanted t).0 (wanted t).1 t ≡ false
unfolding needs_update
needs_update-wanted none = refl
needs_update-wanted (some (l, k)) = ground arith

-- The table and the renderers' objects are all that the target is read from.
abbrev read_from : Router → RoutingTable × (RendererId → RendererObject)
read_from s = (s.table, s.objects)

target_of_same :
    (d : DisplayId) (s u : Router) → read_from s ≡ read_from u → target_of d s ≡ target_of d u
unfolding target_of
target_of_same d s u e = ap (λ p. target_of d (record s { table = p.0; objects = p.1 })) e

await-target :
    (d : DisplayId) (r : Option RendererId) (g : Option ℕ) (s : Router)
    → read_from (await_unbind d r g s) ≡ read_from s
unfolding await_unbind
await-target d none g s = refl
await-target d (some r) none s = refl
await-target d (some r) (some g) s = refl

-- The messages with an unbind of what was noted.
abbrev pub unbound : Option ℕ → List DisplayOutEvent → List DisplayOutEvent
unbound none es = es
unbound (some g) es = unbind g ∷ es

retired :
    (g : Option ℕ) (st : DisplayState)
    → (elim g as (λ _. DisplayState) [
      | none ↦ st
      | some h ↦ record st { sent = unbind h ∷ st.sent }
    ]).sent
      ≡ unbound g st.sent
retired none st = refl
retired (some g) st = refl

-- At most one frame, of the pool.
abbrev pub IsReplay : RendererId → ℕ → List DisplayOutEvent → Type 0
IsReplay r g es =
    (es ≡ []) ⊎ ((f : FrameSnapshot) × (es ≡ frame r f 1 ∷ []) × (f.buffer_generation ≡ g))

abbrev pub Rebound : Option (Link × ℕ) → List DisplayOutEvent → List DisplayOutEvent → Type 0
Rebound none es now = now ≡ es
Rebound (some (l, g)) es now =
    (again : List DisplayOutEvent) × (cfg : ProjectedConfig) × IsReplay l.renderer_id g again
    × (now ≡ again ++ set_config cfg ∷ bind l.renderer_id ∷ es)

frame-IsReplay :
    (r : RendererId) (g : ℕ) (f : FrameSnapshot) (b : Bool)
    → f.buffer_generation == g ≡ b
    → IsReplay r g (if b then frame r f 1 ∷ [] else [])
frame-IsReplay r g f true e = inr (f, refl, tested_same f.buffer_generation g e)
frame-IsReplay r g f false e = inl refl

last_frame-IsReplay :
    (r : RendererId) (g : ℕ) (b : Bool) (o : Option FrameSnapshot)
    → IsReplay r g (
        if b
        then (elim o as (λ _. List DisplayOutEvent) [
          | none ↦ []
          | some f ↦ if f.buffer_generation == g then frame r f 1 ∷ [] else []
        ])
        else [])
last_frame-IsReplay r g false o = inl refl
last_frame-IsReplay r g true none = inl refl
last_frame-IsReplay r g true (some f) = frame-IsReplay r g f (f.buffer_generation == g) refl

unwanted :
    (t : Option (Link × ℕ)) (st : DisplayState)
    → needs_update st.last_renderer st.last_buffer_generation t ≡ true
    → ¬ bound_pool st ≡ wanted t
unwanted t st k e =
    let quiet = ap (λ p. needs_update p.0 p.1 t) e ∙ needs_update-wanted t in
    absurd (true_false (sym k ∙ quiet))
  where
    true_false : true ≡ false → ⊥
    true_false e = cc

-- The three ways out of sync_display.
branch_first :
    (b c : Bool) (s u : Router) → b ≡ true → (if b then s else if not c then s else u) ≡ s
branch_first b c s u h = ap (λ x. if x then s else if not c then s else u) h

branch_second :
    (b c : Bool) (s u : Router) → c ≡ false → (if b then s else if not c then s else u) ≡ s
branch_second true c s u h = refl
branch_second false c s u h = ap (λ x. if not x then s else u) h

branch_third :
    (b c : Bool) (s u : Router)
    → b ≡ false
    → c ≡ true
    → (if b then s else if not c then s else u) ≡ u
branch_third b c s u h k =
    ap (λ x. if x then s else if not c then s else u) h ∙ ap (λ x. if not x then s else u) k

module _ (ops : F32Ops) where
  rebind-target :
      (d : DisplayId) (t : Option (Link × ℕ)) (s : Router)
      → read_from (rebind ops d t s) ≡ read_from s
  unfolding rebind
  rebind-target d none s = refl
  rebind-target d (some (l, g)) s = refl

  rebound-wanted :
      (t : Option (Link × ℕ)) (s : Router) (st : DisplayState)
      → bound_pool (rebound ops t s st) ≡ wanted t
  unfolding bind_new
  rebound-wanted none s st = refl
  rebound-wanted (some (l, g)) s st = refl

  rebinding : DisplayId → DisplayState → Option (Link × ℕ) → Router → Router
  rebinding d st t s =
      rebind ops d t
        (await_unbind d st.last_renderer st.last_buffer_generation (set_display d retire s))

  sync_found-gated :
      (d : DisplayId) (st : DisplayState) (t : Option (Link × ℕ)) (s : Router)
      → gated t st s ≡ true
      → sync_found ops d st t s ≡ s
  unfolding sync_found rebinding
  sync_found-gated d st t s h =
      branch_first (gated t st s) (needs_update st.last_renderer st.last_buffer_generation t) s
        (rebinding d st t s) h

  sync_found_same :
      (d : DisplayId) (st : DisplayState) (t : Option (Link × ℕ)) (s : Router)
      → needs_update st.last_renderer st.last_buffer_generation t ≡ false
      → sync_found ops d st t s ≡ s
  unfolding sync_found rebinding
  sync_found_same d st t s h =
      branch_second (gated t st s) (needs_update st.last_renderer st.last_buffer_generation t) s
        (rebinding d st t s) h

  sync_found_moves :
      (d : DisplayId) (st : DisplayState) (t : Option (Link × ℕ)) (s : Router)
      → gated t st s ≡ false
      → needs_update st.last_renderer st.last_buffer_generation t ≡ true
      → sync_found ops d st t s ≡ rebinding d st t s
  unfolding sync_found rebinding
  sync_found_moves d st t s h k =
      branch_third (gated t st s) (needs_update st.last_renderer st.last_buffer_generation t) s
        (rebinding d st t s) h k

  sync_display_found :
      (d : DisplayId) (st : DisplayState) (s : Router)
      → display d s ≡ some st
      → sync_display ops d s ≡ sync_found ops d st (target_of d s) s
  unfolding sync_display
  sync_display_found d st s e =
      ap (λ o. elim o as (λ _. Router) [ none ↦ s | some a ↦ sync_found ops d a (target_of d s) s ])
        e

  target-rebinding :
      (d : DisplayId) (st : DisplayState) (t : Option (Link × ℕ)) (s : Router)
      → target_of d (rebinding d st t s) ≡ target_of d s
  unfolding rebinding
  target-rebinding d st t s =
      let s1 = set_display d retire s in
      let s2 = await_unbind d st.last_renderer st.last_buffer_generation s1 in
      target_of_same d (rebind ops d t s2) s
        (rebind-target d t s2 ∙ await-target d st.last_renderer st.last_buffer_generation s1)

  -- What is sent for a target: nothing, or a bind and a config, and for some renderers the frame
  -- that they showed last.
  Rebound-rebound :
      (t : Option (Link × ℕ)) (s : Router) (st : DisplayState)
      → Rebound t (unbound st.last_buffer_generation st.sent) (rebound ops t s st).sent
  unfolding bind_new
  Rebound-rebound none s st = retired st.last_buffer_generation st
  Rebound-rebound (some (l, g)) s st =
      let o = (next_config ops s).objects l.renderer_id in
      let again = replay_of l.renderer_id g o in
      let s1 = next_config ops s in
      let cfg =
        project_link ops l o (retire st).info s1.next_config_generation
          (resolved_layout_for_renderer ops (retire st).info l.renderer_id s1) in
      (
        again,
        cfg,
        last_frame-IsReplay l.renderer_id g o.is_image o.latest_frame,
        ap (λ es. again ++ set_config cfg ∷ bind l.renderer_id ∷ es)
            (retired st.last_buffer_generation st),
      )

  display-rebinding :
      (d : DisplayId) (st : DisplayState) (t : Option (Link × ℕ)) (s : Router)
      → display d s ≡ some st
      → (a : DisplayState) × (display d (rebinding d st t s) ≡ some a)
        × (bound_pool a ≡ wanted t)
        × (IsInStep st → IsInStep a)
        × Rebound t (unbound st.last_buffer_generation st.sent) a.sent
  unfolding rebinding
  display-rebinding d st t s e =
      let s1 = await_unbind d st.last_renderer st.last_buffer_generation (set_display d retire s) in
      (
        rebound ops t s1 st,
        ap (get ℕ_discrete d) (rebind-displays ops d st.last_renderer st.last_buffer_generation t s)
            ∙ get-modify ℕ_discrete d d (rebound ops t s1) s.displays
            ∙ ground (arith, e),
        rebound-wanted t s1 st,
        rebound-IsInStep ops t s1 st,
        Rebound-rebound t s1 st,
      )

  -- Where the messages to a display that the negotiation does not hold back obeyed the protocol and
  -- left bound what the router noted, they do so after sync_display, and what is noted is then the
  -- renderer of the display's enabled link with the generation of its pool, or nothing where there is
  -- no such link, renderer or pool. If that was noted before, nothing is sent. If not, an unbind of
  -- the generation noted is sent, if one was, and then for a pool its bind, a config, and at most one
  -- frame, of that pool; and nothing else.
  pub sync_display-bound_pool :
      (d : DisplayId) (st : DisplayState) (s : Router)
      → display d s ≡ some st
      → gated (target_of d s) st s ≡ false
      → IsInStep st
      → (a : DisplayState) × (display d (sync_display ops d s) ≡ some a)
        × (bound_pool a ≡ wanted (target_of d s))
        × IsInStep a
        × (((bound_pool st ≡ wanted (target_of d s)) × (a ≡ st))
            ⊎ ((¬ bound_pool st ≡ wanted (target_of d s))
                × Rebound (target_of d s) (unbound st.last_buffer_generation st.sent) a.sent))
  sync_display-bound_pool d st s e free h =
      let t = target_of d s in
      let first = ap (display d) (sync_display_found d st s e) in
      elim (Bool-cases (needs_update st.last_renderer st.last_buffer_generation t)) [
        | inl k ↦
            let (a, found, held, kept, news) = display-rebinding d st t s e in
            (
              a,
              first ∙ ap (display d) (sync_found_moves d st t s free k) ∙ found,
              held,
              kept h,
              inr (unwanted t st k, news),
            )
        | inr k ↦ (
          st,
          first ∙ ap (display d) (sync_found_same d st t s k) ∙ e,
          needs_update-false t st.last_renderer st.last_buffer_generation k,
          h,
          inl (needs_update-false t st.last_renderer st.last_buffer_generation k, refl),
        )
      ]

  stays-bound :
      (d : DisplayId) (a : DisplayState) (s : Router)
      → display d s ≡ some a
      → bound_pool a ≡ wanted (target_of d s)
      → sync_display ops d s ≡ s
  stays-bound d a s e h =
      sync_display_found d a s e
      ∙ sync_found_same d a (target_of d s) s
          (ap (λ p. needs_update p.0 p.1 (target_of d s)) h ∙ needs_update-wanted (target_of d s))

  rebinding_stays :
      (d : DisplayId) (st : DisplayState) (s : Router)
      → display d s ≡ some st
      → let u = rebinding d st (target_of d s) s in sync_display ops d u ≡ u
  rebinding_stays d st s e =
      let t = target_of d s in
      let (a, found, held, kept, news) = display-rebinding d st t s e in
      stays-bound d a (rebinding d st t s) found
        (held ∙ ap wanted (sym (target-rebinding d st t s)))

  -- Where the first run changes nothing, neither does the second.
  again :
      (d : DisplayId) (s u : Router)
      → sync_display ops d s ≡ u
      → sync_display ops d u ≡ u
      → sync_display ops d (sync_display ops d s) ≡ sync_display ops d s
  again d s u e h = ap (sync_display ops d) e ∙ h ∙ sym e

  found_again :
      (d : DisplayId) (st : DisplayState) (s : Router)
      → display d s ≡ some st
      → sync_display ops d (sync_display ops d s) ≡ sync_display ops d s
  found_again d st s e =
      let t = target_of d s in
      let first = sync_display_found d st s e in
      elim (Bool-cases (gated t st s)) [
        | inl g ↦ let same = first ∙ sync_found-gated d st t s g in again d s s same same
        | inr g ↦ elim (Bool-cases (needs_update st.last_renderer st.last_buffer_generation t)) [
          | inl k ↦
              again d s (rebinding d st t s) (first ∙ sync_found_moves d st t s g k)
                (rebinding_stays d st s e)
          | inr k ↦ let same = first ∙ sync_found_same d st t s k in again d s s same same
        ]
      ]

  absent_again : (d : DisplayId) (s : Router) → display d s ≡ none → sync_display ops d s ≡ s
  unfolding sync_display
  absent_again d s e =
      ap (λ o. elim o as (λ _. Router) [ none ↦ s | some a ↦ sync_found ops d a (target_of d s) s ])
        e

  -- A second sync_display of the same display changes nothing and sends nothing.
  pub sync_display-sync_display :
      (d : DisplayId) (s : Router)
      → sync_display ops d (sync_display ops d s) ≡ sync_display ops d s
  sync_display-sync_display d s = elim (Option-cases (display d s)) [
    | inl e ↦ again d s s (absent_again d s e) (absent_again d s e)
    | inr (st, e) ↦ found_again d st s e
  ]
