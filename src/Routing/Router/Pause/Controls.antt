-- ===== src/Routing/Router/Pause/Controls.antt =====
-- src/routing/router.rs, reconcile_lifecycle: the paused set, and what is asked of renderers. A
-- call of it is seen by itself: no other handler runs between its section under the lock and what
-- it sends.
use wwe_modify.Base.{
  Bool, true, false, ◌||◌, List, [], ◌∷◌, ◌++◌, ◌≡◌, refl, sym, ap, ◌∙◌, arith, ite,
}
use wwe_modify.Base.Tests.{if◌then◌else◌, str_discrete}
use mathlib.Core.List.{append-nil, append_assoc}
use wwe_modify.Base.Lists.{is_empty}
use wwe_modify.Routing.Table.{RendererId, Link, renderer_ids, links_for_renderer}
use wwe_modify.Routing.Router.{
  display, enabled_links, Control, play, pause, Router, member, drop_id,
}
use wwe_modify.Routing.Router.Pause.{
  wants_pause, any_autopaused, session_paused, should_pause, pause_diff, pause_diffs, newest_first,
  changed_events, reconcile_paused, reconcile_lifecycle,
}

-- Which control was the last that `send_control` was called with for a renderer, the newest first,
-- or else `b`. A call may fail: a renderer is asked, it need not hear.
unfoldable pub told_from : RendererId → Bool → List (RendererId × Control) → Bool
told_from r b [] = b
told_from r b ((x, pause) ∷ out) =
    let rest = told_from r b out in elim (str_discrete x r) [ yes _ ↦ true | no _ ↦ rest ]
told_from r b ((x, play) ∷ out) =
    let rest = told_from r b out in elim (str_discrete x r) [ yes _ ↦ false | no _ ↦ rest ]

-- A renderer plays when it starts.
abbrev pub told_paused : RendererId → Router → Bool
unfolding told_from
told_paused r s = told_from r false s.controls

member-drop_id :
    (r x : RendererId) (xs : List RendererId)
    → member r (drop_id x xs) ≡ ite (str_discrete x r) false (member r xs)
unfolding member drop_id
member-drop_id r x [] = ground arith
member-drop_id r x (y ∷ ys) = ground (arith, member-drop_id r x ys)

member-pause_diff :
    (r rid : RendererId) (b : Bool) (paused : List RendererId)
    → member r (pause_diff b rid paused).0 ≡ ite (str_discrete rid r) b (member r paused)
unfolding member pause_diff
member-pause_diff r rid b paused = ground (arith, member-drop_id r rid paused)

member-pause_diffs :
    (r : RendererId) (f : RendererId → Bool) (rids paused : List RendererId)
    → member r (pause_diffs f rids paused).0 ≡ (if member r rids then f r else member r paused)
unfolding member pause_diffs
member-pause_diffs r f [] paused = refl
member-pause_diffs r f (x ∷ xs) paused = ground (
  arith,
  member-pause_diffs r f xs (pause_diff (f x) x paused).0,
  member-pause_diff r x (f x) paused,
)

told-append :
    (r : RendererId) (b : Bool) (xs ys : List (RendererId × Control))
    → told_from r b (xs ++ ys) ≡ told_from r (told_from r b ys) xs
unfolding told_from
told-append r b [] ys = refl
told-append r b ((x, pause) ∷ xs) ys = ground (arith, told-append r b xs ys)
told-append r b ((x, play) ∷ xs) ys = ground (arith, told-append r b xs ys)

newest_first-append :
    (xs ys : List (RendererId × Control))
    → newest_first (xs ++ ys) ≡ newest_first ys ++ newest_first xs
newest_first-append [] ys = sym (append-nil (newest_first ys))
newest_first-append (c ∷ xs) ys =
    ap (λ l. l ++ c ∷ []) (newest_first-append xs ys)
    ∙ append_assoc (newest_first ys) (newest_first xs) (c ∷ [])

told-pause_diff :
    (r rid : RendererId) (b : Bool) (paused : List RendererId)
    → told_from r (member r paused) (newest_first (pause_diff b rid paused).1)
      ≡ member r (pause_diff b rid paused).0
unfolding told_from member pause_diff
told-pause_diff r rid b paused = ground (arith, member-drop_id r rid paused)

told-pause_diffs :
    (r : RendererId) (f : RendererId → Bool) (rids paused : List RendererId)
    → told_from r (member r paused) (newest_first (pause_diffs f rids paused).1)
      ≡ member r (pause_diffs f rids paused).0
unfolding told_from member pause_diffs
told-pause_diffs r f [] paused = refl
told-pause_diffs r f (x ∷ xs) paused =
    let (paused1, out1) = pause_diff (f x) x paused in
    let out2 = (pause_diffs f xs paused1).1 in
    ap (told_from r (member r paused)) (newest_first-append out1 out2)
    ∙ told-append r (member r paused) (newest_first out2) (newest_first out1)
    ∙ ap (λ b. told_from r b (newest_first out2)) (told-pause_diff r x (f x) paused)
    ∙ told-pause_diffs r f xs paused1

-- After reconcile_lifecycle a registered renderer counts as paused exactly when it should be, and
-- any other as before.
pub reconcile_lifecycle_lem :
    (r : RendererId) (s : Router)
    → member r (reconcile_lifecycle s).paused_renderers
      ≡ (if member r (renderer_ids s.table) then should_pause r s else member r s.paused_renderers)
unfolding reconcile_paused reconcile_lifecycle
reconcile_lifecycle_lem r s =
    member-pause_diffs r (λ rid. should_pause rid s) (renderer_ids s.table) s.paused_renderers

-- Where, before a call of reconcile_lifecycle that no other handler interrupts, the last call of
-- send_control for a registered renderer agreed with the set of paused ones, after it the last such
-- call asks for a pause exactly when the renderer should be paused. The calls count whatever they
-- answer: what is said is what was asked, not what arrived.
pub reconcile_lifecycle-told :
    (r : RendererId) (s : Router)
    → member r (renderer_ids s.table) ≡ true
    → told_paused r s ≡ member r s.paused_renderers
    → told_paused r (reconcile_lifecycle s) ≡ should_pause r s
unfolding reconcile_paused reconcile_lifecycle told_paused
reconcile_lifecycle-told r s known h =
    let f = λ (rid : RendererId). should_pause rid s in
    let ids = renderer_ids s.table in
    let out = (pause_diffs f ids s.paused_renderers).1 in
    told-append r false (newest_first out) s.controls
    ∙ ap (λ b. told_from r b (newest_first out)) h
    ∙ told-pause_diffs r f ids s.paused_renderers
    ∙ member-pause_diffs r f ids s.paused_renderers
    ∙ ap (λ b. if b then f r else member r s.paused_renderers) known

member_self : (x : RendererId) (xs : List RendererId) → member x (x ∷ xs) ≡ true
unfolding member
member_self x xs = ground arith

member_later :
    (r x : RendererId) (xs : List RendererId) → member r xs ≡ true → member r (x ∷ xs) ≡ true
unfolding member
member_later r x xs h = ground arith

pause_diff_settled :
    (b : Bool) (rid : RendererId) (paused : List RendererId)
    → member rid paused ≡ b
    → pause_diff b rid paused ≡ (paused, [])
unfolding pause_diff
pause_diff_settled b rid paused h = ground arith

settled :
    (f : RendererId → Bool) (rids paused : List RendererId)
    → ((r : RendererId) → member r rids ≡ true → member r paused ≡ f r)
    → pause_diffs f rids paused ≡ (paused, [])
unfolding member pause_diff pause_diffs
settled f [] paused h = refl
settled f (x ∷ xs) paused h =
    ap (λ p. after p) (pause_diff_settled (f x) x paused (h x (member_self x xs)))
    ∙ settled f xs paused (λ r m. h r (member_later r x xs m))
  where
    after :
        List RendererId × List (RendererId × Control)
        → List RendererId × List (RendererId × Control)
    after (paused1, out1) =
        let (paused2, out2) = pause_diffs f xs paused1 in (paused2, out1 ++ out2)

any_autopaused_same :
    (ls : List Link) (s : Router) → any_autopaused ls (reconcile_lifecycle s) ≡ any_autopaused ls s
unfolding any_autopaused reconcile_paused reconcile_lifecycle
any_autopaused_same [] s = refl
any_autopaused_same (l ∷ ls) s =
    ap (λ b. wants_pause (display l.display_id s) || b) (any_autopaused_same ls s)

should_pause_same :
    (r : RendererId) (s : Router) → should_pause r (reconcile_lifecycle s) ≡ should_pause r s
unfolding should_pause session_paused reconcile_paused reconcile_lifecycle
should_pause_same r s =
    let links = enabled_links (links_for_renderer r s.table) in
    ap (λ b. s.manual_paused || is_empty links || b || session_paused s)
      (any_autopaused_same links s)

diffs_settled :
    (s : Router)
    → let u = reconcile_lifecycle s in
      pause_diffs (λ rid. should_pause rid u) (renderer_ids u.table) u.paused_renderers
      ≡ (u.paused_renderers, [])
unfolding reconcile_paused reconcile_lifecycle
diffs_settled s =
    let u = reconcile_lifecycle s in
    settled (λ rid. should_pause rid u) (renderer_ids s.table) u.paused_renderers
      (λ r m.
        reconcile_lifecycle_lem r s
        ∙ ap (λ b. if b then should_pause r s else member r s.paused_renderers) m
        ∙ sym (should_pause_same r s))

-- A second reconcile_lifecycle changes nothing and sends nothing.
pub reconcile_lifecycle-reconcile_lifecycle :
    (s : Router) → reconcile_lifecycle (reconcile_lifecycle s) ≡ reconcile_lifecycle s
unfolding reconcile_paused reconcile_lifecycle
reconcile_lifecycle-reconcile_lifecycle s =
    let u = reconcile_lifecycle s in
    ap
      (λ p. record u {
        paused_renderers = p.0;
        controls = newest_first p.1 ++ u.controls;
        events = changed_events p.1 ++ u.events;
      })
      (diffs_settled s)
