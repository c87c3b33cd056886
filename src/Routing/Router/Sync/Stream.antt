-- ===== src/Routing/Router/Sync/Stream.antt =====
-- src/routing/router.rs, sync_display: the protocol of a display's channel.
use wwe_modify.Base.{
  ℕ, Bool, true, false, not, Option, none, some, List, [], ◌∷◌, ◌++◌, ◌≡◌, refl, sym, ap, subst,
  ◌∙◌, arith, ℕ_discrete, ite,
}
use mathlib.Core.Option
use wwe_modify.Base.Tests.{◌==◌, if◌then◌else◌, is_some}
use wwe_modify.Base.Map.{Map, get, modify, get-modify, modify-modify}
use wwe_modify.Display.Layout.{F32Ops}
use wwe_modify.Routing.Table.{DisplayId, RendererId, Link}
use wwe_modify.Routing.Router.Project.{project_link, resolved_layout_for_renderer}
use wwe_modify.Scheduler.{ProjectedConfig}
use wwe_modify.Routing.Router.{
  FrameSnapshot, RendererObject, DisplayOutEvent, bind, unbind, set_config, frame, DisplayState,
  Router, display, set_display,
}
use wwe_modify.Routing.Router.Sync.{
  retire, await_unbind, replay_of, bind_new, next_config, rebind, sync_found, sync_display, tell,
  send_config, resync_target, resync_display_set_config, target_of, gated, needs_update,
}

-- What is bound on a channel: nothing, or a renderer's pool. A bind names no generation; the one
-- here is that which the frames and the unbind after it name.
abbrev pub Held : Type 0
Held = Option (RendererId × ℕ)

-- The messages, the newest first, obey the protocol and leave so much bound: a bind comes only where
-- nothing is bound, and up to the next unbind every frame is of the renderer bound, and all of them
-- and the unbind name one generation.
pub data Follows : List DisplayOutEvent → Held → Type 0 where
  silent : Follows [] none
  binds :
      (r : RendererId) (g : ℕ) {es : List DisplayOutEvent}
      → Follows es none
      → Follows (bind r ∷ es) (some (r, g))
  unbinds :
      (r : RendererId) (g : ℕ) {es : List DisplayOutEvent}
      → Follows es (some (r, g))
      → Follows (unbind g ∷ es) none
  configures :
      (cfg : ProjectedConfig) {held : Held} {es : List DisplayOutEvent}
      → Follows es held
      → Follows (set_config cfg ∷ es) held
  shows :
      (r : RendererId) (f : FrameSnapshot) (n : ℕ) {es : List DisplayOutEvent}
      → Follows es (some (r, f.buffer_generation))
      → Follows (frame r f n ∷ es) (some (r, f.buffer_generation))

-- What the router notes of the display.
unfoldable pub noted : Option RendererId → Option ℕ → Option Held
noted none none = some none
noted (some r) (some g) = some (some (r, g))
noted none (some _) = none
noted (some _) none = none

-- The messages obey the protocol, and leave bound what is noted.
pub record IsInStep (st : DisplayState) : Type 0 where
  pub held : Held
  pub follows : Follows st.sent held
  pub known : noted st.last_renderer st.last_buffer_generation ≡ some held

abbrev pub AllInStep : Map DisplayId DisplayState → Type 0
AllInStep m = (d : DisplayId) (st : DisplayState) → get ℕ_discrete d m ≡ some st → IsInStep st

-- What is found under `j` after a change under `d`.
found-IsInStep :
    {d j : DisplayId} (b : Dec (d ≡ j)) (f : DisplayState → DisplayState) (o : Option DisplayState)
    (st : DisplayState)
    → (d ≡ j → (a : DisplayState) → o ≡ some a → IsInStep a → IsInStep (f a))
    → ((a : DisplayState) → o ≡ some a → IsInStep a)
    → ite b (Option.map f o) o ≡ some st
    → IsInStep st
found-IsInStep (yes p) f none st keep h e = absurd cc
found-IsInStep (yes p) f (some a) st keep h e = subst IsInStep (cc) (keep p a refl (h a refl))
found-IsInStep (no q) f o st keep h e = h st e

pub modify_at-AllInStep :
    (d : DisplayId) (f : DisplayState → DisplayState) (m : Map DisplayId DisplayState)
    → ((st : DisplayState) → get ℕ_discrete d m ≡ some st → IsInStep st → IsInStep (f st))
    → AllInStep m
    → AllInStep (modify ℕ_discrete d f m)
modify_at-AllInStep d f m keep h j st e =
    found-IsInStep (ℕ_discrete d j) f (get ℕ_discrete j m) st
      (λ p a found. keep a (ap (λ x. get ℕ_discrete x m) p ∙ found)) (h j)
      (sym (get-modify ℕ_discrete j d f m) ∙ e)

modify-AllInStep :
    (d : DisplayId) (f : DisplayState → DisplayState) (m : Map DisplayId DisplayState)
    → ((st : DisplayState) → IsInStep st → IsInStep (f st))
    → AllInStep m
    → AllInStep (modify ℕ_discrete d f m)
modify-AllInStep d f m keep h = modify_at-AllInStep d f m (λ st e k. keep st k) h

noted_held :
    (r : Option RendererId) (g : Option ℕ) (held : Held)
    → noted r g ≡ some held
    → (es : List DisplayOutEvent) → Follows es held
    → Follows (elim g [ none ↦ es | some h ↦ unbind h ∷ es ]) none
unfolding noted
noted_held none none held e es h = subst (Follows es) (cc) h
noted_held (some r) (some g) held e es h = unbinds r g (subst (Follows es) (cc) h)
noted_held none (some g) held e es h = absurd cc
noted_held (some r) none held e es h = absurd cc

retired_sent :
    (g : Option ℕ) (st : DisplayState)
    → (elim g as (λ _. DisplayState) [
      | none ↦ st
      | some h ↦ record st { sent = unbind h ∷ st.sent }
    ]).sent
      ≡ elim g [ none ↦ st.sent | some h ↦ unbind h ∷ st.sent ]
retired_sent none st = refl
retired_sent (some g) st = refl

-- The pool that was bound is unbound.
Follows-retire : (st : DisplayState) → IsInStep st → Follows (retire st).sent none
Follows-retire st h =
    subst (λ es. Follows es none) (sym (retired_sent st.last_buffer_generation st))
      (noted_held st.last_renderer st.last_buffer_generation h.held h.known st.sent h.follows)

pub tested_same : (a b : ℕ) → a == b ≡ true → a ≡ b
tested_same a b h = ground arith

shown_again :
    (r : RendererId) (g : ℕ) (f : FrameSnapshot) (es : List DisplayOutEvent) (b : Bool)
    → f.buffer_generation == g ≡ b
    → Follows es (some (r, g))
    → Follows ((if b then frame r f 1 ∷ [] else []) ++ es) (some (r, g))
shown_again r g f es true e h =
    let named = tested_same f.buffer_generation g e in
    subst (λ x. Follows (frame r f 1 ∷ es) (some (r, x))) named
      (shows r f 1 (subst (λ x. Follows es (some (r, x))) (sym named) h))
shown_again r g f es false e h = h

replayed :
    (r : RendererId) (g : ℕ) (b : Bool) (o : Option FrameSnapshot) (es : List DisplayOutEvent)
    → Follows es (some (r, g))
    → Follows
        ((if b
            then (elim o as (λ _. List DisplayOutEvent) [
              | none ↦ []
              | some f ↦ if f.buffer_generation == g then frame r f 1 ∷ [] else []
            ])
            else [])
          ++ es)
        (some (r, g))
replayed r g false o es h = h
replayed r g true none es h = h
replayed r g true (some f) es h = shown_again r g f es (f.buffer_generation == g) refl h

Follows-replay_of :
    (r : RendererId) (g : ℕ) (o : RendererObject) (es : List DisplayOutEvent)
    → Follows es (some (r, g))
    → Follows (replay_of r g o ++ es) (some (r, g))
Follows-replay_of r g o es h = replayed r g o.is_image o.latest_frame es h

-- The config counter, and the answers awaited, are no display's.
await-displays :
    (d : DisplayId) (r : Option RendererId) (g : Option ℕ) (s : Router)
    → (await_unbind d r g s).displays ≡ s.displays
unfolding await_unbind
await-displays d none g s = refl
await-displays d (some r) none s = refl
await-displays d (some r) (some g) s = refl

pub either-AllInStep :
    (b : Bool) (s u : Router)
    → AllInStep s.displays
    → AllInStep u.displays
    → AllInStep (if b then s else u).displays
either-AllInStep true s u h k = h
either-AllInStep false s u h k = k

module _ (ops : F32Ops) where
  bind_new-IsInStep :
      (l : Link) (g : ℕ) (s : Router) (st : DisplayState)
      → IsInStep st
      → IsInStep (bind_new ops l g (retire st) s)
  unfolding bind_new noted
  bind_new-IsInStep l g s st h = record {
    held = some (l.renderer_id, g);
    follows =
        let layout = resolved_layout_for_renderer ops (retire st).info l.renderer_id s in
        let o = s.objects l.renderer_id in
        let cfg = project_link ops l o (retire st).info s.next_config_generation layout in
        Follows-replay_of l.renderer_id g o (set_config cfg ∷ bind l.renderer_id ∷ (retire st).sent)
          (configures cfg (binds l.renderer_id g (Follows-retire st h)));
    known = refl;
  }

  -- What `rebind` makes of the display's state, the retirement before it included.
  abbrev pub rebound : Option (Link × ℕ) → Router → DisplayState → DisplayState
  rebound none s st = record (retire st) { last_renderer = none; last_buffer_generation = none }
  rebound (some (l, g)) s st = bind_new ops l g (retire st) (next_config ops s)

  pub rebound-IsInStep :
      (t : Option (Link × ℕ)) (s : Router) (st : DisplayState)
      → IsInStep st
      → IsInStep (rebound t s st)
  unfolding noted
  rebound-IsInStep none s st h = record { held = none; follows = Follows-retire st h; known = refl }
  rebound-IsInStep (some (l, g)) s st h = bind_new-IsInStep l g (next_config ops s) st h

  -- What the code does from the unbind on.
  pub rebind-displays :
      (d : DisplayId) (r : Option RendererId) (g : Option ℕ) (t : Option (Link × ℕ)) (s : Router)
      → let s1 = await_unbind d r g (set_display d retire s) in
        (rebind ops d t s1).displays ≡ modify ℕ_discrete d (rebound t s1) s.displays
  unfolding rebind
  rebind-displays d r g none s =
      let clear =
        λ (st : DisplayState). record st { last_renderer = none; last_buffer_generation = none } in
      ap (modify ℕ_discrete d clear) (await-displays d r g (set_display d retire s))
      ∙ modify-modify ℕ_discrete d clear retire s.displays
  rebind-displays d r g (some (l, h)) s =
      let s1 = next_config ops (await_unbind d r g (set_display d retire s)) in
      ap (modify ℕ_discrete d (λ st. bind_new ops l h st s1))
        (await-displays d r g (set_display d retire s))
      ∙ modify-modify ℕ_discrete d (λ st. bind_new ops l h st s1) retire s.displays

  sync_found-AllInStep :
      (d : DisplayId) (st : DisplayState) (t : Option (Link × ℕ)) (s : Router)
      → AllInStep s.displays
      → AllInStep (sync_found ops d st t s).displays
  unfolding sync_found
  sync_found-AllInStep d st t s h =
      let s1 = await_unbind d st.last_renderer st.last_buffer_generation (set_display d retire s) in
      either-AllInStep (gated t st s) s _ h (
        either-AllInStep (not (needs_update st.last_renderer st.last_buffer_generation t)) s
          (rebind ops d t s1) h
          (subst AllInStep (sym (rebind-displays d st.last_renderer st.last_buffer_generation t s))
            (modify-AllInStep d (rebound t s1) s.displays (rebound-IsInStep t s1) h)))

  -- Where each display's messages obey the protocol and leave bound the pool that the
  -- router notes, they do so after sync_display of any display.
  pub sync_display-AllInStep :
      (d : DisplayId) (s : Router)
      → AllInStep s.displays
      → AllInStep (sync_display ops d s).displays
  unfolding sync_display
  sync_display-AllInStep d s h =
      elim (display d s)
        as (λ o.
          AllInStep
            (elim o as (λ _. Router) [
              | none ↦ s
              | some st ↦ sync_found ops d st (target_of d s) s
            ]).displays) [ none ↦ h | some st ↦ sync_found-AllInStep d st (target_of d s) s h ]

  pub tell_config :
      (cfg : ProjectedConfig) (st : DisplayState)
      → IsInStep st
      → IsInStep (record st { sent = set_config cfg ∷ st.sent })
  tell_config cfg st h = record {
    held = h.held;
    follows = configures cfg h.follows;
    known = h.known;
  }

  pub tell-AllInStep :
      (d : DisplayId) (cfg : ProjectedConfig) (s : Router)
      → AllInStep s.displays
      → AllInStep (tell d cfg s).displays
  unfolding tell
  tell-AllInStep d cfg s h = modify-AllInStep d _ s.displays (λ st k. tell_config cfg st k) h

  pub send_config-AllInStep :
      (d : DisplayId) (l : Link) (s : Router)
      → AllInStep s.displays
      → AllInStep (send_config ops d l s).displays
  unfolding send_config
  send_config-AllInStep d l s h = modify-AllInStep d _ s.displays (λ st k. tell_config _ st k) h

  resync_target-AllInStep :
      (d : DisplayId) (t : Option (Link × ℕ)) (s : Router)
      → AllInStep s.displays
      → AllInStep (resync_target ops d t s).displays
  resync_target-AllInStep d none s h = h
  resync_target-AllInStep d (some (l, g)) s h = send_config-AllInStep d l s h

  pub resync_display_set_config-AllInStep :
      (d : DisplayId) (s : Router)
      → AllInStep s.displays
      → AllInStep (resync_display_set_config ops d s).displays
  unfolding resync_display_set_config
  resync_display_set_config-AllInStep d s h =
      either-AllInStep (is_some (display d s)) (resync_target ops d (target_of d s) s) s
        (resync_target-AllInStep d (target_of d s) s h) h
