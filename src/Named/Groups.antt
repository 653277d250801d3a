-- ===== src/Named/Groups.antt =====
-- core/group_store.go: the groups, and what is checked of one.
use Prim.Native.String.{String}
use godelayq.Prelude.{ℕ, List, [], ◌∷◌, Bool, true, false, ◌&&◌, ◌||◌, leb, ◌==◌, length}
use godelayq.Text.{codes}
use godelayq.Named.{Kind}

pub record Group : Type 0 where
  pub name : String
  pub description : String
  pub color : String
  pub created_at : ℕ
  pub updated_at : ℕ

abbrev pub is_letter_or_digit : ℕ → Bool
is_letter_or_digit c =
    (leb b'A' c && leb c b'Z') || (leb b'a' c && leb c b'z') || (leb b'0' c && leb c b'9')

abbrev pub is_name_char : ℕ → Bool
is_name_char c = is_letter_or_digit c || c == b'_' || c == b'-'

unfoldable pub all_of : (ℕ → Bool) → List ℕ → Bool
all_of test [] = true
all_of test (c ∷ s) = test c && all_of test s

-- The pattern of a name: 1 to 64 letters, digits, underscores and dashes.
unfoldable pub good_name : String → Bool
unfolding all_of
good_name s = leb 1 (length (codes s)) && leb (length (codes s)) 64 && all_of is_name_char (codes s)

abbrev pub is_hex_digit : ℕ → Bool
is_hex_digit c =
    (leb b'0' c && leb c b'9') || (leb b'a' c && leb c b'f') || (leb b'A' c && leb c b'F')

-- Three digits are written out as six; a character that is not ASCII is no digit, however many bytes
-- it has.
unfoldable pub is_hex_color : List ℕ → Bool
unfolding all_of
is_hex_color [] = false
is_hex_color (c ∷ digits) =
    c == b'#' && (length digits == 3 || length digits == 6) && all_of is_hex_digit digits

unfoldable pub good_color : List ℕ → Bool
unfolding is_hex_color
good_color [] = true
good_color (c ∷ s) = is_hex_color (c ∷ s)

unfoldable pub good_group : Group → Bool
unfolding good_name good_color
good_group g = good_name g.name && good_color (codes g.color)

abbrev pub group_kind : Kind Group
group_kind = record {
  name = λ g. g.name;
  created_at = λ g. g.created_at;
  stamped = λ g created updated. record g { created_at = created; updated_at = updated };
  good = good_group;
}
