-- ===== src/Routing/Router/Calls/Displays.antt =====
-- src/routing/router.rs: the handlers of displays as runs.
use wwe_modify.Base.{ℕ, ◌&&◌, ◌||◌, Option, none, some, List, [], ◌∷◌, ◌≡◌, refl, arith}
use wwe_modify.Base.Lists.{is_empty}
use wwe_modify.Base.Tests.{◌==◌, is_some}
use wwe_modify.Display.Layout.{F32Ops}
use wwe_modify.Routing.Table.{DisplayId, RendererId, first_renderer}
use wwe_modify.Routing.Router.{
  DisplayState, Router, display, set_display, emit, display_upsert, displays_replace,
}
use wwe_modify.Routing.Router.Sync.{sync_display, resync_display_set_config}
use wwe_modify.Routing.Router.Renderers.{mark_orphans, cancel_orphan_timer}
use wwe_modify.Routing.Router.Displays.{
  DisplayRegistration, register_display, insert_display, forget_display, auto_link, upsert,
  fresh_display, unregister_display, relink, relink_each, relinked, replace_unless,
  relink_displays_to, update_display_size, resize, set_size,
}
use wwe_modify.Routing.Router.Runs.{Step, Run, IsQuiet}
use wwe_modify.Routing.Router.Calls.{
  either, aside, reconcile_lifecycle-Run, reconcile_buffer_flags-Run, sync_all-Run,
  mark_orphans-Run,
}

module _ (ops : F32Ops) (s : Router) where
  pub upsert-Run : (d : DisplayId) (t : Router) → Run ops s t → Run ops s (upsert d t)
  upsert-Run d t run =
      either ops s (is_some (display d t)) (emit (display_upsert d) t) t
        (aside ops s t (emit (display_upsert d) t) refl run) run

  pub replace_unless-Run :
      (ds : List DisplayId) (t : Router) → Run ops s t → Run ops s (replace_unless ds t)
  replace_unless-Run ds t run =
      either ops s (is_empty ds) t (emit displays_replace t) run
        (aside ops s t (emit displays_replace t) refl run)

  pub auto_link-Run :
      (d : DisplayId) (r : Option RendererId) (t : Router)
      → Run ops s t
      → Run ops s (auto_link d r t)
  unfolding auto_link cancel_orphan_timer
  auto_link-Run d none t run = run
  auto_link-Run d (some r) t run = aside ops s t (auto_link d (some r) t) refl run

  pub register_display-Run :
      (reg : DisplayRegistration) (t : Router)
      → Run ops s t
      → Run ops s (register_display ops reg t).1
  unfolding register_display
  register_display-Run reg t run =
      let d = fresh_display t in
      let t1 = insert_display reg t in
      let t2 = auto_link d (first_renderer t1.table) t1 in
      let t3 = sync_display ops d t2 in
      let run3 =
        Run.next (auto_link-Run d (first_renderer t1.table) t1 (Run.next run (Step.adds reg t)))
          (Step.syncs d t2) in
      upsert-Run d _ (reconcile_buffer_flags-Run ops s _ (reconcile_lifecycle-Run ops s t3 run3))

  pub unregister_display-Run :
      (d : DisplayId) (t : Router) → Run ops s t → Run ops s (unregister_display ops d t)
  unfolding unregister_display
  unregister_display-Run d t run =
      let t1 = mark_orphans ops none (forget_display d t) in
      aside ops s _ (unregister_display ops d t) refl (
        reconcile_buffer_flags-Run ops s _ (
          reconcile_lifecycle-Run ops s t1
            (mark_orphans-Run ops s none (forget_display d t) (Run.next run (Step.forgets d t)))))

  pub relinked-Run :
      (r : RendererId) (ds : List DisplayId) (t : Router)
      → Run ops s t
      → Run ops s (relinked ops r ds t)
  unfolding relinked
  relinked-Run r ds t run = replace_unless-Run ds _ (
      reconcile_buffer_flags-Run ops s _ (
        mark_orphans-Run ops s (some r) _
          (reconcile_lifecycle-Run ops s _ (sync_all-Run ops s ds t run))))

  -- The links change; the displays do not.
  displays-relink_each :
      (r : RendererId) (ds : List DisplayId) (t : Router)
      → (relink_each r ds t).1.displays ≡ t.displays
  unfolding relink_each
  displays-relink_each r [] t = refl
  displays-relink_each r (d ∷ ds) t = ground (
    arith,
    displays-relink_each r ds t,
    displays-relink_each r ds (record t { table = relink r d t.table }),
  )

  pub relink_displays_to-Run :
      (ds : List DisplayId) (r : RendererId) (t : Router)
      → Run ops s t
      → Run ops s (relink_displays_to ops ds r t)
  unfolding relink_displays_to
  relink_displays_to-Run ds r t run =
      relinked-Run r (relink_each r ds t).0 (relink_each r ds t).1
        (aside ops s t (relink_each r ds t).1 (displays-relink_each r ds t) run)

  set_size-IsQuiet : (width height : ℕ) → IsQuiet (set_size width height)
  set_size-IsQuiet width height = record {
    sent = λ st. refl;
    renderer = λ st. refl;
    generation = λ st. refl;
  }

  pub resize-Run :
      (d : DisplayId) (width height : ℕ) (o : Option DisplayState) (t : Router)
      → Run ops s t
      → Run ops s (resize ops d width height o t)
  resize-Run d width height none t run = run
  resize-Run d width height (some st) t run =
      let t1 = set_display d (set_size width height) t in
      let run1 =
        Run.next run (Step.tunes d (set_size width height) t (set_size-IsQuiet width height)) in
      upsert-Run d _ (
        either ops s (st.info.width == width && st.info.height == height) t1
          (resync_display_set_config ops d t1) run1 (Run.next run1 (Step.resyncs d t1)))

  pub update_display_size-Run :
      (d : DisplayId) (width height : ℕ) (t : Router)
      → Run ops s t
      → Run ops s (update_display_size ops d width height t)
  unfolding update_display_size
  update_display_size-Run d width height t run =
      either ops s (width == 0 || height == 0) t (resize ops d width height (display d t) t) run
        (resize-Run d width height (display d t) t run)
