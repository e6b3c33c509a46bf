-- ===== src/Generation/Keywords.antt =====
-- core/generation/refine.py, the keyword tables. A text is its code points: the letters of the alphabet
-- are written as such, and all else as numbers.
use misaka_asset_gene.Prelude.{List, [], ◌∷◌}
use misaka_asset_gene.Network.{Text}

abbrev pub metadata_keywords : List Text
metadata_keywords =
    (27161 ∷ 31844 ∷ [])
    ∷ (27161 ∷ 35352 ∷ [])
    ∷ (b't' ∷ b'a' ∷ b'g' ∷ [])
    ∷ (26368 ∷ 24859 ∷ [])
    ∷ (b'f' ∷ b'a' ∷ b'v' ∷ b'o' ∷ b'r' ∷ b'i' ∷ b't' ∷ b'e' ∷ [])
    ∷ (b'f' ∷ b'a' ∷ b'v' ∷ b'o' ∷ b'u' ∷ b'r' ∷ b'i' ∷ b't' ∷ b'e' ∷ [])
    ∷ (20633 ∷ 35387 ∷ [])
    ∷ (b'n' ∷ b'o' ∷ b't' ∷ b'e' ∷ [])
    ∷ (37325 ∷ 26032 ∷ 21629 ∷ 21517 ∷ [])
    ∷ (b'r' ∷ b'e' ∷ b'n' ∷ b'a' ∷ b'm' ∷ b'e' ∷ [])
    ∷ (25910 ∷ 34255 ∷ [])
    ∷ []

abbrev pub local_edit_keywords : List Text
local_edit_keywords =
    (23616 ∷ 37096 ∷ [])
    ∷ (21482 ∷ 25226 ∷ [])
    ∷ (21482 ∷ 25913 ∷ [])
    ∷ (25226 ∷ 24038 ∷ [])
    ∷ (25226 ∷ 21491 ∷ [])
    ∷ (21435 ∷ 25481 ∷ [])
    ∷ (31227 ∷ 38500 ∷ [])
    ∷ (b'r' ∷ b'e' ∷ b'm' ∷ b'o' ∷ b'v' ∷ b'e' ∷ [])
    ∷ (b'i' ∷ b'n' ∷ b'p' ∷ b'a' ∷ b'i' ∷ b'n' ∷ b't' ∷ [])
    ∷ (36974 ∷ 32617 ∷ [])
    ∷ (b'm' ∷ b'a' ∷ b's' ∷ b'k' ∷ [])
    ∷ (20854 ∷ 20182 ∷ 19981 ∷ 35201 ∷ 21205 ∷ [])
    ∷ (20854 ∷ 23427 ∷ 19981 ∷ 35201 ∷ 21205 ∷ [])
    ∷ (20445 ∷ 30041 ∷ 20854 ∷ 20182 ∷ [])
    ∷ (36889 ∷ 20491 ∷ 21312 ∷ 22495 ∷ [])
    ∷ (36984 ∷ 21462 ∷ 21312 ∷ 22495 ∷ [])
    ∷ []

abbrev pub regen_keywords : List Text
regen_keywords =
    (37325 ∷ 30059 ∷ [])
    ∷ (37325 ∷ 26032 ∷ 29983 ∷ 25104 ∷ [])
    ∷ (25972 ∷ 24373 ∷ 37325 ∷ [])
    ∷ (20840 ∷ 37096 ∷ 37325 ∷ [])
    ∷ (37325 ∷ 26032 ∷ 20358 ∷ [])
    ∷ (b'r' ∷ b'e' ∷ b'g' ∷ b'e' ∷ b'n' ∷ b'e' ∷ b'r' ∷ b'a' ∷ b't' ∷ b'e' ∷ [])
    ∷ (b'f' ∷ b'r' ∷ b'o' ∷ b'm' ∷ 32 ∷ b's' ∷ b'c' ∷ b'r' ∷ b'a' ∷ b't' ∷ b'c' ∷ b'h' ∷ [])
    ∷ (27083 ∷ 22294 ∷ 23436 ∷ 20840 ∷ [])
    ∷ []

abbrev pub base_markers : List Text
base_markers =
    (27083 ∷ 22294 ∷ [])
    ∷ (37857 ∷ 20301 ∷ [])
    ∷ (32972 ∷ 26223 ∷ [])
    ∷ (22580 ∷ 26223 ∷ [])
    ∷ (31449 ∷ 22312 ∷ [])
    ∷ (24291 ∷ 22580 ∷ [])
    ∷ (b'c' ∷ b'o' ∷ b'm' ∷ b'p' ∷ b'o' ∷ b's' ∷ b'i' ∷ b't' ∷ b'i' ∷ b'o' ∷ b'n' ∷ [])
    ∷ (b'b' ∷ b'a' ∷ b'c' ∷ b'k' ∷ b'g' ∷ b'r' ∷ b'o' ∷ b'u' ∷ b'n' ∷ b'd' ∷ [])
    ∷ (b'c' ∷ b'a' ∷ b'm' ∷ b'e' ∷ b'r' ∷ b'a' ∷ [])
    ∷ []

abbrev pub detail_markers : List Text
detail_markers =
    (34920 ∷ 24773 ∷ [])
    ∷ (39662 ∷ [])
    ∷ (26381 ∷ 35037 ∷ [])
    ∷ (31150 ∷ 26381 ∷ [])
    ∷ (31359 ∷ 33879 ∷ [])
    ∷ (25163 ∷ 21218 ∷ [])
    ∷ (23039 ∷ 21218 ∷ [])
    ∷ (b'e' ∷ b'x' ∷ b'p' ∷ b'r' ∷ b'e' ∷ b's' ∷ b's' ∷ b'i' ∷ b'o' ∷ b'n' ∷ [])
    ∷ (b'o' ∷ b'u' ∷ b't' ∷ b'f' ∷ b'i' ∷ b't' ∷ [])
    ∷ (b'h' ∷ b'a' ∷ b'i' ∷ b'r' ∷ [])
    ∷ (b'p' ∷ b'o' ∷ b's' ∷ b'e' ∷ [])
    ∷ []

abbrev pub prop_markers : List Text
prop_markers =
    (24125 ∷ [])
    ∷ (27494 ∷ 22120 ∷ [])
    ∷ (21133 ∷ [])
    ∷ (37197 ∷ 20214 ∷ [])
    ∷ (33136 ∷ 21253 ∷ [])
    ∷ (36947 ∷ 20855 ∷ [])
    ∷ (b'p' ∷ b'r' ∷ b'o' ∷ b'p' ∷ [])
    ∷ (b'w' ∷ b'e' ∷ b'a' ∷ b'p' ∷ b'o' ∷ b'n' ∷ [])
    ∷ (b'a' ∷ b'c' ∷ b'c' ∷ b'e' ∷ b's' ∷ b's' ∷ b'o' ∷ b'r' ∷ b'y' ∷ [])
    ∷ (b'h' ∷ b'a' ∷ b't' ∷ [])
    ∷ []

abbrev pub polish_markers : List Text
polish_markers =
    (33394 ∷ 35519 ∷ [])
    ∷ (20809 ∷ 32218 ∷ [])
    ∷ (33394 ∷ 24425 ∷ [])
    ∷ (35036 ∷ 20809 ∷ [])
    ∷ (b'p' ∷ b'o' ∷ b'l' ∷ b'i' ∷ b's' ∷ b'h' ∷ [])
    ∷ (b'l' ∷ b'i' ∷ b'g' ∷ b'h' ∷ b't' ∷ b'i' ∷ b'n' ∷ b'g' ∷ [])
    ∷ (b'c' ∷ b'o' ∷ b'l' ∷ b'o' ∷ b'r' ∷ [])
    ∷ (b'c' ∷ b'o' ∷ b'l' ∷ b'o' ∷ b'u' ∷ b'r' ∷ [])
    ∷ (28516 ∷ 39166 ∷ [])
    ∷ (35519 ∷ 26262 ∷ [])
    ∷ (35519 ∷ 20142 ∷ [])
    ∷ []
