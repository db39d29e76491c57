-- ===== src/Fmt.antt =====
-- The formatting wrappers of src/utils/fmt.rs. A value to be written is the text that its
-- `Display` writes.
use farcri_rs.Prelude.{Option, none, some, List, [], ◌∷◌, ◌++◌, codes, Bytes}

separated : Bytes → List Bytes → Bytes
separated sep [] = []
separated sep (e ∷ es) = sep ++ (e ++ separated sep es)

unfoldable pub comma_separated_no_space : List Bytes → Bytes
unfolding separated
comma_separated_no_space [] = []
comma_separated_no_space (e ∷ es) = e ++ separated (codes ",") es

unfoldable pub comma_separated : List Bytes → Bytes
unfolding separated
comma_separated [] = []
comma_separated (e ∷ es) = e ++ separated (codes ", ") es

-- `Joined<Option<T>>` and `Joined<(T1, T2)>`
unfoldable pub joined_option : Option Bytes → Bytes
joined_option none = []
joined_option (some x) = x

unfoldable pub joined_pair : Bytes × Bytes → Bytes
joined_pair (a, b) = a ++ b
