-- ===== src/Metrics/Methods.antt =====
-- The name of an RPC in the labels of the metrics (services/core/metrics/interceptor.go).
use Prim.Native.Char.{code}
use Prim.Native.String.{◌++◌}
use Prim.Native.String.append.{nil, cons}
use rate_cap.Prelude.{String, false, none, some, ◌≡◌, refl, ap, ◌∙◌, eqb}
use rate_cap.Metrics.{after_last_slash, method_name}

-- The name of a method has no slash.
abbrev pub NoSlash : String → Type 0
NoSlash String.[] = Unit
NoSlash (String.◌∷◌ c s) = (eqb (code c) b'/' ≡ false) × NoSlash s

after_last_slash-none : (s : String) → NoSlash s → after_last_slash s ≡ none
unfolding after_last_slash
after_last_slash-none String.[] h = refl
after_last_slash-none (String.◌∷◌ c s) h = rw (after_last_slash-none s h.1, h.0) refl

slash_cons : (m : String) → "/" ++ m ≡ String.◌∷◌ "/" m
slash_cons m = cons "/" "" m ∙ ap (String.◌∷◌ "/") (nil m)

after_last_slash-joined :
    (path method : String)
    → NoSlash method
    → after_last_slash (path ++ ("/" ++ method)) ≡ some method
unfolding after_last_slash
after_last_slash-joined String.[] m h =
    ap after_last_slash (nil ("/" ++ m) ∙ slash_cons m) ∙ rw (after_last_slash-none m h) refl
after_last_slash-joined (String.◌∷◌ c p) m h =
    ap after_last_slash (cons c p ("/" ++ m))
    ∙ rw (after_last_slash, after_last_slash-joined p m h) refl

-- What follows the last slash of a full name, also where the path before it has slashes.
pub method_name-joined :
    (path method : String) → NoSlash method → method_name (path ++ ("/" ++ method)) ≡ method
unfolding method_name
method_name-joined path method h = rw (method_name, after_last_slash-joined path method h) refl
