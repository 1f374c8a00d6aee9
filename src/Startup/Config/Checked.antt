-- ===== src/Startup/Config/Checked.antt =====
-- What CConfiguration::ReadConfigFiles has checked when it returns, and when it does.
use rosev_ircsystem.Common.{
  ℕ, ◌≤◌, ◌≡◌, refl, sym, subst, ap, zero, suc, ◌≢◌, Bool, true, false, not, ◌&&◌, some, List, [],
  ◌∷◌, inl, inr, if_elim, Option-cases, ◌*◌, ◌++◌, ◌==◌, arith, leb, ltb, length, is_empty, All,
  Bool-cases,
}
use rosev_ircsystem.Text.{Text, lit, lowercased}
use rosev_ircsystem.Assoc.{text_key, insert, place, lookup, insert-of_none, insert-of_some}
use rosev_ircsystem.Startup.Result.{
  Result, ok, err, ◌>>=◌, Returns, returned, thrown, ◌⟫◌, throw_if-Returns, any_Returns, of_ok,
}
use rosev_ircsystem.Startup.Host.{Entry, MainOptions, Host}
use rosev_ircsystem.Startup.Passhash.{sha512_digest_length, binary_passhash, bytes_of}
use rosev_ircsystem.Startup.Config.{
  Configuration, default, motd_line_length, set_main_options, file_lines, read_motd, opened,
  read_users, check, read_config_files,
}

module _ {ℓ κ} {A : Type ℓ} (P : A → Type κ) where
  All-append : (xs : List A) {x : A} → All P xs → P x → All P (xs ++ x ∷ [])
  All-append [] h p = (p, tt)
  All-append (y ∷ xs) h p = (h.0, All-append xs h.1 p)

All-place :
    (P : Text × Text → Type 0) (k v : Text) (m : List (Text × Text))
    → P (k, v)
    → All P m
    → All P (place k v m)
unfolding place
All-place P k v [] p h = (p, tt)
All-place P k v ((j, w) ∷ m) p h =
    if_elim (All P) (text_key.less k j) {x = (k, v) ∷ (j, w) ∷ m} {y = (j, w) ∷ place k v m} (p, h)
      (h.0, All-place P k v m p h.1)

All-insert :
    (P : Text × Text → Type 0) (k v : Text) (m : List (Text × Text))
    → P (k, v)
    → All P m
    → All P (insert k v m)
All-insert P k v m p h = elim (Option-cases (lookup k m)) [
  | inl e ↦ rw (insert-of_none k v m e) (All-place P k v m p h)
  | inr (w, e) ↦ rw (insert-of_some k v w m e) h
]

abbrev pub IsShort : Text → Type 0
IsShort line = length line ≤ motd_line_length

abbrev pub IsDigest : Text × Text → Type 0
IsDigest (nickname, passhash) = length passhash ≡ sha512_digest_length

-- What the sanity checks and the loops have checked.
pub record IsChecked (c : Configuration) : Type 0 where
  pub named : c.name ≢ []
  pub ported : c.port ≢ 0
  pub pid_filed : c.pid_file ≢ []
  pub short : All IsShort c.motd
  pub digests : All IsDigest c.user_passhash_map

read_motd-IsShort :
    (motd lines : List Text) → All IsShort motd → Returns (All IsShort) (read_motd motd lines)
unfolding read_motd
read_motd-IsShort motd [] h = returned h
read_motd-IsShort motd (line ∷ rest) h = elim (Bool-cases (ltb motd_line_length (length line))) [
  | inl e ↦ rw (e) thrown
  | inr e ↦
      rw (e)
        (read_motd-IsShort (motd ++ line ∷ []) rest (All-append IsShort motd h (ground (arith, e))))
]

length-bytes_of : (n : ℕ) (s : Text) → length s ≡ 2 * n → length (bytes_of s) ≡ n
unfolding bytes_of
length-bytes_of n [] e = omega (arith, e)
length-bytes_of n (c ∷ []) e = omega (arith, e)
length-bytes_of zero (c ∷ d ∷ s) e = omega (arith, e)
length-bytes_of (suc n) (c ∷ d ∷ s) e = ap suc (length-bytes_of n s (omega (arith, e)))

binary_passhash-length :
    (hex : Text) → Returns (λ p. length p ≡ sha512_digest_length) (binary_passhash hex)
unfolding binary_passhash
binary_passhash-length hex = elim (Bool-cases (length hex == 2 * sha512_digest_length)) [
  | inl e ↦ rw (e) (returned (length-bytes_of sha512_digest_length hex (ground (arith, e))))
  | inr e ↦ rw (e) thrown
]

read_users-digests :
    (users : List (Text × Text)) (entries : List Entry)
    → All IsDigest users
    → Returns (All IsDigest) (read_users users entries)
unfolding read_users
read_users-digests users [] h = returned h
read_users-digests users ((nickname, hex) ∷ entries) h = binary_passhash-length hex ⟫ λ p e.
    read_users-digests (insert (lowercased nickname) p users) entries
      (All-insert IsDigest (lowercased nickname) p users e h)

check-IsChecked :
    (c : Configuration)
    → All IsShort c.motd
    → All IsDigest c.user_passhash_map
    → Returns IsChecked (check c)
unfolding check
check-IsChecked c short digests = throw_if-Returns (is_empty c.name) _ ⟫ λ _ n.
    throw_if-Returns (c.port == 0) _ ⟫ λ _ p. throw_if-Returns (is_empty c.pid_file) _ ⟫ λ _ f.
    returned (record {
      named = ground (arith, n);
      ported = ground (arith, p);
      pid_filed = ground (arith, f);
      short = short;
      digests = digests;
    })

read_config_files-Returns :
    (host : Host) (c : Configuration)
    → c.motd ≡ []
    → c.user_passhash_map ≡ []
    → Returns IsChecked (read_config_files host c)
unfolding read_config_files set_main_options
read_config_files-Returns host c motd users =
    any_Returns (host.parse_main_file (c.config_path ++ lit "/MainConfig.ini")) ⟫ λ options _.
    any_Returns
      (opened (c.config_path ++ lit "/Motd.txt") (host.contents (c.config_path ++ lit "/Motd.txt")))
    ⟫ λ text _.
        read_motd-IsShort c.motd (file_lines text) (subst (All IsShort) (sym motd) tt)
        ⟫ λ lines short.
            any_Returns (host.parse_config_file (c.config_path ++ lit "/Users.ini")) ⟫ λ entries _.
            read_users-digests c.user_passhash_map entries (subst (All IsDigest) (sym users) tt)
            ⟫ λ passhashes digests.
                check-IsChecked
                  (record (set_main_options options c) {
                    motd = lines;
                    user_passhash_map = passhashes;
                  })
                  short digests

-- A configuration that ReadConfigFiles reads into a fresh object has a server name, a port other
-- than 0 and a pidfile; no line of its message of the day is longer than 80 bytes, and every passhash
-- has 64 bytes.
pub read_config_files-IsChecked :
    (host : Host) (c c' : Configuration)
    → c.motd ≡ []
    → c.user_passhash_map ≡ []
    → read_config_files host c ≡ ok c'
    → IsChecked c'
read_config_files-IsChecked host c c' motd users e =
    of_ok (subst (Returns IsChecked) e (read_config_files-Returns host c motd users))

-- When a result was not thrown.
abbrev pub succeeds {ℓ} : {A : Type ℓ} → Result A → Bool
succeeds (ok a) = true
succeeds (err e) = false

-- The conditions on the lines of Motd.txt and on the entries of Users.ini.
pub all_short : List Text → Bool
all_short [] = true
all_short (line ∷ lines) = leb (length line) motd_line_length && all_short lines

pub all_hashes : List Entry → Bool
all_hashes [] = true
all_hashes ((nickname, hex) ∷ entries) = (length hex == 128) && all_hashes entries

succeeds-read_motd : (motd lines : List Text) → succeeds (read_motd motd lines) ≡ all_short lines
unfolding read_motd all_short
succeeds-read_motd motd [] = refl
succeeds-read_motd motd (line ∷ rest) = ground (arith, succeeds-read_motd (motd ++ line ∷ []) rest)

succeeds-read_users :
    (users : List (Text × Text)) (entries : List Entry)
    → succeeds (read_users users entries) ≡ all_hashes entries
unfolding read_users all_hashes binary_passhash
succeeds-read_users users [] = refl
succeeds-read_users users ((nickname, hex) ∷ entries) = elim (Bool-cases (length hex == 128)) [
  | inl e ↦ rw (e) (succeeds-read_users (insert (lowercased nickname) (bytes_of hex) users) entries)
  | inr e ↦ rw (e)
]

succeeds-check :
    (c : Configuration)
    → succeeds (check c)
      ≡ (not (is_empty c.name) && (not (c.port == 0) && not (is_empty c.pid_file)))
unfolding check
succeeds-check c = ground arith

succeeds-bind {ℓ κ} :
    {A : Type ℓ} {B : Type κ} (m : Result A) (f : A → Result B) (a b : Bool)
    → succeeds m ≡ a
    → ((x : A) → succeeds (f x) ≡ b)
    → succeeds (m >>= f) ≡ (a && b)
succeeds-bind (ok x) f a b e h = ground (arith, e, h x)
succeeds-bind (err _) f a b e h = ground (arith, e)

-- The conditions on the main file.
abbrev pub is_complete : MainOptions → Bool
is_complete options =
    not (is_empty (default [] options.general_name))
    && (not (default 0 options.general_port == 0)
        && not (is_empty (default [] options.general_pidfile)))

abbrev read_rest : MainOptions → List Entry → Configuration → List Text → Result Configuration
read_rest options entries c motd = do
  users ← read_users c.user_passhash_map entries
  check (record (set_main_options options c) { motd = motd; user_passhash_map = users })

succeeds-read_rest :
    (options : MainOptions) (entries : List Entry) (c : Configuration) (motd : List Text)
    → succeeds (read_rest options entries c motd) ≡ (all_hashes entries && is_complete options)
unfolding set_main_options
succeeds-read_rest options entries c motd =
    succeeds-bind (read_users c.user_passhash_map entries) _ (all_hashes entries)
      (is_complete options) (succeeds-read_users c.user_passhash_map entries)
      (λ users.
        succeeds-check
          (record (set_main_options options c) { motd = motd; user_passhash_map = users }))

-- Where the files can be read, ReadConfigFiles returns exactly if no line of Motd.txt is longer than
-- 80 bytes, every passhash of Users.ini has 128 bytes, and the main file has a name that is not
-- empty, a port that is not 0 and a pidfile that is not empty; it throws otherwise.
pub succeeds-read_config_files :
    (host : Host) (c : Configuration) (options : MainOptions) (text : Text) (entries : List Entry)
    → host.parse_main_file (c.config_path ++ lit "/MainConfig.ini") ≡ ok options
    → host.contents (c.config_path ++ lit "/Motd.txt") ≡ some text
    → host.parse_config_file (c.config_path ++ lit "/Users.ini") ≡ ok entries
    → succeeds (read_config_files host c)
      ≡ (all_short (file_lines text) && (all_hashes entries && is_complete options))
unfolding read_config_files opened set_main_options
succeeds-read_config_files host c options text entries a b d =
    rw (a, b, d)
      (succeeds-bind (read_motd c.motd (file_lines text)) (read_rest options entries c)
        (all_short (file_lines text)) (all_hashes entries && is_complete options)
        (succeeds-read_motd c.motd (file_lines text)) (succeeds-read_rest options entries c))
