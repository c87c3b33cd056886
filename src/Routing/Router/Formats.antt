-- ===== src/Routing/Router/Formats.antt =====
-- src/routing/router.rs, reconcile_buffer_flags and the handlers that change what it reads: the
-- format of each link is picked again.
use wwe_modify.Base.{ℕ, Option, none, some, List, [], ◌∷◌}
use wwe_modify.Base.Tests.{if◌then◌else◌, str_discrete, is_some}
use wwe_modify.Base.Map.{Map, get, insert}
use wwe_modify.Dma.Negotiate.{NegotiatedScheme, PeerCaps, ok, err, pick, blacklisted}
use wwe_modify.Routing.Table.{
  DisplayId, RendererId, Link, get_renderer, renderer_ids, links_for_renderer,
}
use wwe_modify.Routing.Router.{
  RendererObject, DisplayState, Router, display, set_display, enabled_links,
}

-- One pair of the negotiation, and the schemes found so far: the last one for a renderer wins.
abbrev negotiate_pair :
    RendererId
    → PeerCaps
    → PeerCaps
    → Map RendererId NegotiatedScheme
    → Map RendererId NegotiatedScheme
negotiate_pair rid producer consumer found = elim (pick producer consumer) [
  | ok scheme ↦ insert str_discrete rid scheme found
  | err _ ↦ found
]

abbrev pub consumer_of : Option DisplayState → Option PeerCaps
consumer_of none = none
consumer_of (some st) = st.consumer_caps

abbrev negotiate_link :
    RendererId
    → PeerCaps
    → Option PeerCaps
    → Map RendererId NegotiatedScheme
    → Map RendererId NegotiatedScheme
negotiate_link rid producer none found = found
negotiate_link rid producer (some consumer) found = negotiate_pair rid producer consumer found

pub negotiate_links :
    RendererId
    → PeerCaps
    → List Link
    → Router
    → Map RendererId NegotiatedScheme
    → Map RendererId NegotiatedScheme
negotiate_links rid producer [] s found = found
negotiate_links rid producer (l ∷ ls) s found =
    negotiate_links rid producer ls s
      (negotiate_link rid producer (consumer_of (display l.display_id s)) found)

pub negotiate_renderers :
    List RendererId → Router → Map RendererId NegotiatedScheme → Map RendererId NegotiatedScheme
unfolding negotiate_links
negotiate_renderers [] s found = found
negotiate_renderers (rid ∷ rids) s found =
    negotiate_renderers rids s (elim (s.objects rid).format_caps [
      | none ↦ found
      | some producer ↦
          negotiate_links rid producer (enabled_links (links_for_renderer rid s.table)) s found
    ])

-- `send_negotiate_buffers` of the manager: where the message arrives, the scheme is the one
-- dispatched last; where it does not, the failure is logged and the last one stays.
abbrev dispatch : Option NegotiatedScheme → RendererObject → RendererObject
dispatch none o = o
dispatch (some scheme) o = if o.reachable then record o { current_scheme = some scheme } else o

-- The pairs are read under the lock; the schemes are picked and dispatched after it, here with no
-- other section between.
unfoldable pub reconcile_buffer_flags : Router → Router
unfolding negotiate_renderers
reconcile_buffer_flags s =
    let found = negotiate_renderers (renderer_ids s.table) s [] in
    record s { objects = λ rid. dispatch (get str_discrete rid found) (s.objects rid) }

abbrev pub set_caps : PeerCaps → DisplayState → DisplayState
set_caps caps st = record st { consumer_caps = some caps }

unfoldable pub set_consumer_caps : DisplayId → PeerCaps → Router → Router
unfolding reconcile_buffer_flags
set_consumer_caps d caps s =
    if is_some (display d s) then reconcile_buffer_flags (set_display d (set_caps caps) s) else s

-- `HashSet::insert` of a pair into the peer's blacklist.
pub blacklist_format : ℕ → ℕ → PeerCaps → PeerCaps
blacklist_format fourcc modifier caps =
    if blacklisted fourcc modifier caps.blacklist
    then caps
    else record caps { blacklist = (fourcc, modifier) ∷ caps.blacklist }

unfoldable pub on_consumer_bind_failed : DisplayId → ℕ → ℕ → Router → Router
unfolding blacklist_format reconcile_buffer_flags
on_consumer_bind_failed d fourcc modifier s = elim (consumer_of (display d s)) [
  | none ↦ s
  | some caps ↦
      reconcile_buffer_flags (set_display d (set_caps (blacklist_format fourcc modifier caps)) s)
]

-- A renderer without caps has nothing to blacklist in.
abbrev pub reject : ℕ → ℕ → RendererObject → RendererObject
unfolding blacklist_format
reject fourcc modifier o = elim o.format_caps [
  | none ↦ o
  | some caps ↦ record o { format_caps = some (blacklist_format fourcc modifier caps) }
]

-- One handle's object is changed.
abbrev pub set_object : RendererId → (RendererObject → RendererObject) → Router → Router
set_object r f s = record s {
  objects = λ rid. elim (str_discrete r rid) [ yes _ ↦ f (s.objects rid) | no _ ↦ s.objects rid ];
}

unfoldable pub on_renderer_bind_failed : RendererId → ℕ → ℕ → Router → Router
unfolding reconcile_buffer_flags
on_renderer_bind_failed r fourcc modifier s =
    if is_some (get_renderer r s.table)
    then reconcile_buffer_flags (set_object r (reject fourcc modifier) s)
    else s
