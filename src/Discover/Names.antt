-- ===== src/Discover/Names.antt =====
-- internal/discover/discover.go: the client of an image.
use Prim.Native.String.{String, ◌∷◌, ◌++◌, char_at}
use text.Mathlib.TextLemmas.{nil-append, cons-append}
use eth_node_operator.Common.{◌≡◌, refl, ap, ◌∙◌}
use eth_node_operator.Common.Text.{to_lower, before_first}
use eth_node_operator.Common.Text.Cut.{Lacks, before_first-append, to_lower-append}
use eth_node_operator.Discover.{client_of_slug, image_to_client_name}

colon : (tag : String) → to_lower (":" ++ tag) ≡ char_at ":" 0 ∷ to_lower tag
unfolding to_lower
colon tag =
    ap to_lower (cons-append (char_at ":" 0) "" tag ∙ ap (λ s. char_at ":" 0 ∷ s) (nil-append tag))

-- If the name of an image, in lower case, has no colon, then a tag behind it, of whatever text, does not count:
-- the client is that of the whole name in lower case.
image_to_client_name-append :
    (name tag : String)
    → Lacks b':' (to_lower name)
    → image_to_client_name (name ++ (":" ++ tag)) ≡ client_of_slug (to_lower name)
unfolding image_to_client_name
image_to_client_name-append name tag h = ap client_of_slug (
    ap (before_first b':')
      (to_lower-append name (":" ++ tag) ∙ ap (λ s. to_lower name ++ s) (colon tag))
    ∙ before_first-append b':' (to_lower name) (char_at ":" 0) (to_lower tag) h refl)
