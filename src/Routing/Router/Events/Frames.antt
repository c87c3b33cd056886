-- ===== src/Routing/Router/Events/Frames.antt =====
-- src/routing/router.rs, on_renderer_frame: who is sent a frame, and the count that it carries.
use wwe_modify.Base.{
  ℕ, zero, suc, ◌%◌, ◌^◌, Bool, true, false, ◌&&◌, Option, none, some, List, [], ◌∷◌, ◌≡◌, refl,
  sym, ap, subst, ◌∙◌, arith, ℕ_discrete, ite,
}
use mathlib.Core.Option
use wwe_modify.Base.Lists.{length}
use wwe_modify.Routing.Router.Formats.{set_object}
use wwe_modify.Base.Tests.{◌==◌, if◌then◌else◌, is_some}
use wwe_modify.Base.Map.{get-modify}
use wwe_modify.Routing.Table.{DisplayId, RendererId, get_renderer}
use wwe_modify.Routing.Router.{
  DisplayOutEvent, frame, FrameSnapshot, DisplayState, Router, display, set_display,
}
use wwe_modify.Routing.Router.Sync.{generation_of}
use wwe_modify.Routing.Router.Events.{
  shows, shows_pool, recipients, audience, send_each, deliver, advance, fan_out, on_renderer_frame,
}
use wwe_modify.Routing.Router.Sync.Stream.{
  IsInStep, Held, AllInStep, Follows, either-AllInStep, modify_at-AllInStep, noted,
}

-- How often a display stands in a list.
pub count : DisplayId → List DisplayId → ℕ
count j [] = 0
count j (d ∷ ds) = let rest = count j ds in elim (ℕ_discrete d j) [ yes _ ↦ suc rest | no _ ↦ rest ]

pub times : ℕ → DisplayOutEvent → List DisplayOutEvent → List DisplayOutEvent
times zero e es = es
times (suc n) e es = e ∷ times n e es

count-recipients :
    (j : DisplayId) (r : RendererId) (g : ℕ) (ds : List DisplayId) (s : Router)
    → count j (recipients r g ds s) ≡ (if shows r g (display j s) then count j ds else 0)
unfolding count recipients
count-recipients j r g [] s = ground arith
count-recipients j r g (d ∷ ds) s = elim (ℕ_discrete d j) [
  | yes p ↦ ground (arith, p, count-recipients j r g ds s, ap (λ x. shows r g (display x s)) p)
  | no q ↦ ground (arith, q, count-recipients j r g ds s)
]

times-cons :
    (n : ℕ) (e : DisplayOutEvent) (es : List DisplayOutEvent)
    → times n e (e ∷ es) ≡ e ∷ times n e es
unfolding times
times-cons zero e es = refl
times-cons (suc n) e es = ap (λ l. e ∷ l) (times-cons n e es)

-- One delivery, seen at `j`.
sent_once :
    {d j : DisplayId} (b : Dec (d ≡ j)) (n : ℕ) (e : DisplayOutEvent) (o : Option DisplayState)
    → Option.map (λ st. times n e st.sent) (ite b (Option.map (deliver e) o) o)
      ≡ Option.map (λ st. times (elim b [ yes _ ↦ suc n | no _ ↦ n ]) e st.sent) o
unfolding times
sent_once (yes p) n e none = refl
sent_once (yes p) n e (some st) = ap some (times-cons n e st.sent)
sent_once (no q) n e o = refl

sent-send_each :
    (j : DisplayId) (e : DisplayOutEvent) (ds : List DisplayId) (s : Router)
    → Option.map (λ st. st.sent) (display j (send_each e ds s))
      ≡ Option.map (λ st. times (count j ds) e st.sent) (display j s)
unfolding send_each count times
sent-send_each j e [] s = refl
sent-send_each j e (d ∷ ds) s =
    sent-send_each j e ds (set_display d (deliver e) s)
    ∙ ap (Option.map (λ st. times (count j ds) e st.sent))
        (get-modify ℕ_discrete j d (deliver e) s.displays)
    ∙ sent_once (ℕ_discrete d j) (count j ds) e (display j s)

-- The frame that on_renderer_frame sends, with the fan-out as its count.
abbrev pub frame_for : RendererId → ℕ → ℕ → ℕ → ℕ → ℕ → DisplayOutEvent
frame_for r g buffer_index seq release_point n =
    frame r
      (record {
        buffer_generation = g;
        buffer_index = buffer_index;
        seq = seq;
        release_point = release_point;
      })
      n

unless_zero :
    (n : ℕ) (e : DisplayOutEvent) (b : Bool) (o : Option DisplayState)
    → Option.map (λ st. times (if b then 0 else n) e st.sent) o
      ≡ (if b then Option.map (λ st. st.sent) o else Option.map (λ st. times n e st.sent) o)
unfolding times
unless_zero n e true o = refl
unless_zero n e false o = refl

split_sent :
    (b : Bool) (j : DisplayId) (s u : Router)
    → Option.map (λ st. st.sent) (display j (if b then s else u)) ≡ (
        if b
        then Option.map (λ st. st.sent) (display j s)
        else Option.map (λ st. st.sent) (display j u))
split_sent true j s u = refl
split_sent false j s u = refl

sent-fan_out :
    (j : DisplayId) (r : RendererId) (f : FrameSnapshot) (ds : List DisplayId) (s : Router)
    → let k = length ds % 2 ^ 32 in
      Option.map (λ st. st.sent) (display j (fan_out r f ds s))
      ≡ Option.map
          (λ st. times (if k == 0 then 0 else count j ds) (frame r f k) st.sent)
          (display j s)
unfolding fan_out
sent-fan_out j r f ds s =
    let k = length ds % 2 ^ 32 in
    let old = Option.map (λ st. st.sent) (display j s) in
    split_sent (k == 0) j (set_object r (advance f.release_point) s) (send_each (frame r f k) ds s)
    ∙ ap (λ x. if k == 0 then old else x) (sent-send_each j (frame r f k) ds s)
    ∙ sym (unless_zero (count j ds) (frame r f k) (k == 0) (display j s))

times_shown :
    (j : DisplayId) (r : RendererId) (g : ℕ) (e : DisplayOutEvent) (none_sent : Bool) (s : Router)
    (o : Option DisplayState)
    → display j s ≡ o
    → Option.map
        (λ st. times (if none_sent then 0 else count j (recipients r g (audience r s) s)) e st.sent)
        o
      ≡ Option.map
          (λ st.
            times
              (if none_sent then 0 else if shows r g (some st) then count j (audience r s) else 0)
              e
              st.sent)
          o
times_shown j r g e b s none h = refl
times_shown j r g e b s (some st) h =
    ap (λ n. some (times (if b then 0 else n) e st.sent))
      (count-recipients j r g (audience r s) s
        ∙ ap (λ o. if shows r g o then count j (audience r s) else 0) h)

abbrev snapshot : ℕ → ℕ → ℕ → ℕ → FrameSnapshot
snapshot g buffer_index seq release_point = record {
  buffer_generation = g;
  buffer_index = buffer_index;
  seq = seq;
  release_point = release_point;
}

abbrev frame_of : RendererId → ℕ → ℕ → ℕ → Router → Option ℕ → Router
frame_of r buffer_index seq release_point s none = s
frame_of r buffer_index seq release_point s (some g) =
    fan_out r (snapshot g buffer_index seq release_point) (recipients r g (audience r s) s) s

on_renderer_frame_cases :
    (r : RendererId) (buffer_index seq release_point : ℕ) (s : Router)
    → on_renderer_frame r buffer_index seq release_point s ≡ (
        if is_some (get_renderer r s.table)
        then frame_of r buffer_index seq release_point s (generation_of (s.objects r))
        else s)
unfolding on_renderer_frame
on_renderer_frame_cases r buffer_index seq release_point s =
    elim (generation_of (s.objects r))
      as (λ o.
        (if is_some (get_renderer r s.table)
          then (elim o as (λ _. Router) [
            | none ↦ s
            | some g ↦
                fan_out r (snapshot g buffer_index seq release_point)
                  (recipients r g (audience r s) s) s
          ])
          else s)
        ≡ (if is_some (get_renderer r s.table)
            then frame_of r buffer_index seq release_point s o
            else s)) [ none ↦ refl | some g ↦ refl ]

-- When a registered renderer that has bound a pool publishes a frame, a display is sent it once for
-- each of its enabled links to the renderer if it shows that pool, and not at all if it does not;
-- the frame carries the number of all its recipients modulo 2^32, and nothing else is sent. Where
-- that number modulo 2^32 is 0, no frame is sent.
pub on_renderer_frame-sent :
    (j : DisplayId) (r : RendererId) (g buffer_index seq release_point : ℕ) (s : Router)
    → is_some (get_renderer r s.table) ≡ true
    → generation_of (s.objects r) ≡ some g
    → let n = length (recipients r g (audience r s) s) % 2 ^ 32 in
      Option.map (λ st. st.sent) (display j (on_renderer_frame r buffer_index seq release_point s))
      ≡ Option.map
          (λ st.
            times
              (if n == 0 then 0 else if shows r g (some st) then count j (audience r s) else 0)
              (frame_for r g buffer_index seq release_point n)
              st.sent)
          (display j s)
on_renderer_frame-sent j r g buffer_index seq release_point s known bound =
    let ds = recipients r g (audience r s) s in
    let f = snapshot g buffer_index seq release_point in
    ap (λ u. Option.map (λ st. st.sent) (display j u))
      (on_renderer_frame_cases r buffer_index seq release_point s
        ∙ ap
            (λ b.
              if b
              then frame_of r buffer_index seq release_point s (generation_of (s.objects r))
              else s)
            known
        ∙ ap (frame_of r buffer_index seq release_point s) bound)
    ∙ sent-fan_out j r f ds s
    ∙ times_shown j r g (frame r f (length ds % 2 ^ 32)) (length ds % 2 ^ 32 == 0) s (display j s)
        refl

-- What is bound where a display shows the pool.
shown_held :
    (r : RendererId) (g : ℕ) (b : Option RendererId) (h : Option ℕ) (held : Held)
    → shows_pool r g b h ≡ true
    → noted b h ≡ some held
    → held ≡ some (r, g)
unfolding noted
shown_held r g none h held s e = absurd cc
shown_held r g (some b) none held s e = absurd cc
shown_held r g (some b) (some h) held s e = ground arith

-- The recipients' channels have bound the pool that the frame is of.
take-frame :
    (r : RendererId) (g n : ℕ) (f : FrameSnapshot) (st : DisplayState)
    → shows r g (some st) ≡ true
    → f.buffer_generation ≡ g
    → IsInStep st
    → IsInStep (deliver (frame r f n) st)
take-frame r g n f st h e k =
    let at_held = shown_held r g st.last_renderer st.last_buffer_generation k.held h k.known in
    record {
      held = some (r, f.buffer_generation);
      follows =
          Follows.shows r f n
            (subst (Follows st.sent) (at_held ∙ ap (λ x. some (r, x)) (sym e)) k.follows);
      known = k.known ∙ ap some (at_held ∙ ap (λ x. some (r, x)) (sym e));
    }

all_show : RendererId → ℕ → List DisplayId → Router → Bool
all_show r g [] s = true
all_show r g (d ∷ ds) s = shows r g (display d s) && all_show r g ds s

all_show-recipients :
    (r : RendererId) (g : ℕ) (ds : List DisplayId) (s : Router)
    → all_show r g (recipients r g ds s) s ≡ true
unfolding all_show recipients
all_show-recipients r g [] s = refl
all_show-recipients r g (d ∷ ds) s = ground (arith, all_show-recipients r g ds s)

-- A delivery does not change what is shown.
shows_once :
    {d j : DisplayId} (b : Dec (d ≡ j)) (r : RendererId) (g : ℕ) (e : DisplayOutEvent)
    (o : Option DisplayState)
    → shows r g (ite b (Option.map (deliver e) o) o) ≡ shows r g o
shows_once (yes p) r g e none = refl
shows_once (yes p) r g e (some st) = refl
shows_once (no q) r g e o = refl

all_show-deliver :
    (r : RendererId) (g : ℕ) (e : DisplayOutEvent) (d : DisplayId) (ds : List DisplayId)
    (s : Router)
    → all_show r g ds (set_display d (deliver e) s) ≡ all_show r g ds s
unfolding all_show
all_show-deliver r g e d [] s = refl
all_show-deliver r g e d (j ∷ ds) s =
    ap (λ b. b && all_show r g ds (set_display d (deliver e) s))
      (ap (shows r g) (get-modify ℕ_discrete j d (deliver e) s.displays)
        ∙ shows_once (ℕ_discrete d j) r g e (display j s))
    ∙ ap (λ b. shows r g (display j s) && b) (all_show-deliver r g e d ds s)

send_each-AllInStep :
    (r : RendererId) (n : ℕ) (f : FrameSnapshot) (ds : List DisplayId) (s : Router)
    → all_show r f.buffer_generation ds s ≡ true
    → AllInStep s.displays
    → AllInStep (send_each (frame r f n) ds s).displays
unfolding all_show send_each
send_each-AllInStep r n f [] s shown h = h
send_each-AllInStep r n f (d ∷ ds) s shown h =
    let g = f.buffer_generation in
    let e = frame r f n in
    send_each-AllInStep r n f ds (set_display d (deliver e) s)
      (all_show-deliver r g e d ds s ∙ ground (arith, shown))
      (modify_at-AllInStep d (deliver e) s.displays
        (λ st found.
          take-frame r g n f st (ap (shows r g) (sym found) ∙ ground (arith, shown)) refl)
        h)

fan_out-AllInStep :
    (r : RendererId) (f : FrameSnapshot) (ds : List DisplayId) (s : Router)
    → all_show r f.buffer_generation ds s ≡ true
    → AllInStep s.displays
    → AllInStep (fan_out r f ds s).displays
unfolding fan_out
fan_out-AllInStep r f ds s shown h =
    let k = length ds % 2 ^ 32 in
    either-AllInStep (k == 0) (set_object r (advance f.release_point) s)
      (send_each (frame r f k) ds s) h (send_each-AllInStep r k f ds s shown h)

frame_of-AllInStep :
    (r : RendererId) (buffer_index seq release_point : ℕ) (s : Router) (o : Option ℕ)
    → AllInStep s.displays
    → AllInStep (frame_of r buffer_index seq release_point s o).displays
frame_of-AllInStep r buffer_index seq release_point s none h = h
frame_of-AllInStep r buffer_index seq release_point s (some g) h =
    fan_out-AllInStep r (snapshot g buffer_index seq release_point)
      (recipients r g (audience r s) s) s (all_show-recipients r g (audience r s) s) h

pub on_renderer_frame-AllInStep :
    (r : RendererId) (buffer_index seq release_point : ℕ) (s : Router)
    → AllInStep s.displays
    → AllInStep (on_renderer_frame r buffer_index seq release_point s).displays
on_renderer_frame-AllInStep r buffer_index seq release_point s h =
    subst (λ u. AllInStep u.displays)
      (sym (on_renderer_frame_cases r buffer_index seq release_point s))
      (either-AllInStep (is_some (get_renderer r s.table)) _ s
        (frame_of-AllInStep r buffer_index seq release_point s (generation_of (s.objects r)) h) h)
