-- ===== src/Routing/Url.antt =====
-- app/Http/Kernel.go: buildURL. The parameters are given as fmt.Sprint prints them.
pub mod RoundTrip
use golite.Base.{
  ℕ, Bool, true, false, Option, none, some, List, [], ◌∷◌, ◌++◌, ◌≡◌, refl, Str, str, is_empty, Map,
  lookup,
}
use golite.Routing.Segments.{Segment, static, param}

-- The value that a parameter gets, if any: the given one, or else its default.
abbrev pub given_or : Option Str → Option Str → Option Str
given_or none d = d
given_or (some v) d = some v

abbrev pub param_url : Str → Bool → Option Str → Str
param_url name optional (some v) = str "/" ++ v
param_url name true none = []
param_url name false none = str "/" ++ (str "{" ++ (name ++ str "}"))

unfoldable pub segment_url : Map Str → Map Str → Segment → Str
segment_url defaults params (static s) = str "/" ++ s
segment_url defaults params (param name optional) =
    param_url name optional (given_or (lookup name params) (lookup name defaults))

unfoldable pub segments_url : Map Str → Map Str → List Segment → Str
segments_url defaults params [] = []
segments_url defaults params (seg ∷ segs) =
    segment_url defaults params seg ++ segments_url defaults params segs

abbrev pub or_root : Str → Str
or_root [] = str "/"
or_root (c ∷ s) = c ∷ s

unfoldable pub build_url : List Segment → Map Str → Map Str → Str
unfolding segments_url segment_url
build_url segs defaults params = or_root (segments_url defaults params segs)
