-- ===== src/Server/Rooms/Names.antt =====
-- The lists of channels that JOIN, PART and NAMES take.
use rosev_ircsystem.Common.{◌≡◌, ap, List, [], ◌∷◌, ◌++◌, arith, All}
use rosev_ircsystem.Text.{Text, Free, lowercased, split-append, split-Free}
use rosev_ircsystem.Server.Rooms.{skip_hash, channel_key, channel_names}

-- A lowercased name without a comma.
abbrev pub IsName : Text → Type 0
IsName n = Free 44 n × (lowercased n ≡ n)

-- Each name behind a hash, with commas between them.
pub print_names : Text → List Text → Text
print_names n [] = 35 ∷ n
print_names n (m ∷ names) = 35 ∷ n ++ 44 ∷ print_names m names

channel_key-hash : (n : Text) → lowercased n ≡ n → channel_key (35 ∷ n) ≡ n
unfolding channel_key skip_hash
channel_key-hash n e = e

-- The channels of a printed list are extracted from it in order, if their names are lowercased and
-- hold no comma.
pub channel_names-print_names :
    (n : Text) (names : List Text)
    → IsName n
    → All IsName names
    → channel_names (print_names n names) ≡ n ∷ names
unfolding channel_names print_names
channel_names-print_names n [] (f, e) hs =
    rw (split-Free 44 (35 ∷ n) ((λ q. ground (arith, q)), f))
      (ap (λ m. m ∷ []) (channel_key-hash n e))
channel_names-print_names n (m ∷ names) (f, e) (h, hs) =
    rw (split-append 44 (35 ∷ n) (print_names m names) ((λ q. ground (arith, q)), f))
      (cc (channel_key-hash n e, channel_names-print_names m names h hs))
