-- ===== src/Routing/Router/Runs.antt =====
-- src/routing/router.rs: the router's handlers run as tasks that await the lock, so what happens is
-- an interleaving of the sections that hold it. A run is any sequence of them.
use wwe_modify.Base.{ℕ, Option, none, some, ◌≡◌, refl, sym, ap, subst, ◌∙◌, ℕ_discrete, ite}
use wwe_modify.Base.Map.{get, get-insert, get-remove}
use wwe_modify.Display.Layout.{F32Ops}
use wwe_modify.Routing.Table.{DisplayId, RendererId, Link}
use wwe_modify.Routing.Router.{DisplayState, Router, set_display}
use wwe_modify.Scheduler.{ProjectedConfig}
use wwe_modify.Routing.Router.Sync.{tell, sync_display, resync_display_set_config, send_config}
use wwe_modify.Routing.Router.Events.{on_renderer_frame}
use wwe_modify.Routing.Router.Events.Frames.{on_renderer_frame-AllInStep}
use wwe_modify.Routing.Router.Displays.{
  DisplayRegistration, insert_display, forget_display, new_state, fresh_display,
}
use wwe_modify.Routing.Router.Sync.Stream.{
  IsInStep, AllInStep, Follows, modify_at-AllInStep, noted, sync_display-AllInStep, tell-AllInStep,
  send_config-AllInStep, resync_display_set_config-AllInStep,
}

-- A change of what a display is known for, not of what it was sent or is noted to hold.
pub record IsQuiet (f : DisplayState → DisplayState) : Type 0 where
  pub sent : (st : DisplayState) → (f st).sent ≡ st.sent
  pub renderer : (st : DisplayState) → (f st).last_renderer ≡ st.last_renderer
  pub generation : (st : DisplayState) → (f st).last_buffer_generation ≡ st.last_buffer_generation

-- A section under the lock. `tells` is the second section of set_link_geometry, whose config is one
-- that was computed at any time before. `elsewhere` is any that leaves the displays alone: the table's links,
-- the timers, the paused set, and what a renderer's thread or the settings change beside it.
pub data Step (ops : F32Ops) : Router → Router → Type 0 where
  syncs : (d : DisplayId) (s : Router) → Step ops s (sync_display ops d s)
  resyncs : (d : DisplayId) (s : Router) → Step ops s (resync_display_set_config ops d s)
  configures : (d : DisplayId) (l : Link) (s : Router) → Step ops s (send_config ops d l s)
  tells : (d : DisplayId) (cfg : ProjectedConfig) (s : Router) → Step ops s (tell d cfg s)
  shows_frame :
      (r : RendererId) (buffer_index seq release_point : ℕ) (s : Router)
      → Step ops s (on_renderer_frame r buffer_index seq release_point s)
  adds : (reg : DisplayRegistration) (s : Router) → Step ops s (insert_display reg s)
  forgets : (d : DisplayId) (s : Router) → Step ops s (forget_display d s)
  tunes :
      (d : DisplayId) (f : DisplayState → DisplayState) (s : Router)
      → IsQuiet f
      → Step ops s (set_display d f s)
  elsewhere : (s u : Router) → u.displays ≡ s.displays → Step ops s u

pub data Run (ops : F32Ops) (s : Router) : Router → Type 0 where
  here : Run ops s s
  next : {t u : Router} → Run ops s t → Step ops t u → Run ops s u

-- A display that is new has been sent nothing.
pub new_state-IsInStep : (d : DisplayId) (reg : DisplayRegistration) → IsInStep (new_state d reg)
unfolding new_state noted
new_state-IsInStep d reg = record { held = none; follows = Follows.silent; known = refl }

inserted-IsInStep :
    {d j : DisplayId} (b : Dec (d ≡ j)) (a : DisplayState) (o : Option DisplayState)
    (st : DisplayState)
    → IsInStep a
    → ((c : DisplayState) → o ≡ some c → IsInStep c)
    → ite b (some a) o ≡ some st
    → IsInStep st
inserted-IsInStep (yes p) a o st k h e = subst IsInStep (cc) k
inserted-IsInStep (no q) a o st k h e = h st e

removed-IsInStep :
    {d j : DisplayId} (b : Dec (d ≡ j)) (o : Option DisplayState) (st : DisplayState)
    → ((c : DisplayState) → o ≡ some c → IsInStep c)
    → ite b none o ≡ some st
    → IsInStep st
removed-IsInStep (yes p) o st h e = absurd cc
removed-IsInStep (no q) o st h e = h st e

quiet-IsInStep :
    (f : DisplayState → DisplayState)
    → IsQuiet f
    → (st : DisplayState) → IsInStep st
    → IsInStep (f st)
quiet-IsInStep f q st k = record {
  held = k.held;
  follows = subst (λ es. Follows es k.held) (sym (q.sent st)) k.follows;
  known =
      ap (λ r. noted r (f st).last_buffer_generation) (q.renderer st)
      ∙ ap (noted st.last_renderer) (q.generation st)
      ∙ k.known;
}

module _ (ops : F32Ops) where
  Step-AllInStep : {s u : Router} → Step ops s u → AllInStep s.displays → AllInStep u.displays
  unfolding insert_display forget_display
  Step-AllInStep (syncs d s) h = sync_display-AllInStep ops d s h
  Step-AllInStep (resyncs d s) h = resync_display_set_config-AllInStep ops d s h
  Step-AllInStep (configures d l s) h = send_config-AllInStep ops d l s h
  Step-AllInStep (tells d cfg s) h = tell-AllInStep ops d cfg s h
  Step-AllInStep (shows_frame r i q p s) h = on_renderer_frame-AllInStep r i q p s h
  Step-AllInStep (adds reg s) h = λ j st e.
      let d = fresh_display s in
      inserted-IsInStep (ℕ_discrete d j) (new_state d reg) (get ℕ_discrete j s.displays) st
        (new_state-IsInStep d reg) (h j)
        (sym (get-insert ℕ_discrete j d (new_state d reg) s.displays) ∙ e)
  Step-AllInStep (forgets d s) h = λ j st e.
      removed-IsInStep (ℕ_discrete d j) (get ℕ_discrete j s.displays) st (h j)
        (sym (get-remove ℕ_discrete j d s.displays) ∙ e)
  Step-AllInStep (tunes d f s q) h =
      modify_at-AllInStep d f s.displays (λ st e k. quiet-IsInStep f q st k) h
  Step-AllInStep (elsewhere s u e) h = subst AllInStep (sym e) h

  -- Whatever sections of the router's handlers follow one another, in whatever order: where each
  -- display's messages obey the protocol at first, they do so in the end. A bind comes only where
  -- nothing is bound; from it to the next unbind, every frame is of the renderer bound, and all the
  -- frames and the unbind name one generation; what is bound is the renderer and generation that the
  -- router notes. (Which pool of the renderer the endpoint reads on a bind, the message does not say.)
  pub Run-AllInStep : {s u : Router} → Run ops s u → AllInStep s.displays → AllInStep u.displays
  Run-AllInStep here h = h
  Run-AllInStep (next run step) h = Step-AllInStep step (Run-AllInStep run h)
