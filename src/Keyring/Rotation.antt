-- ===== src/Keyring/Rotation.antt =====
-- What a keyring sealed stays readable when a newer key is put in front of it.
use complicatedauth_backend.Prelude.{
  ℕ, ◌≡◌, String, str_eq, eq_iff, true, false, List, [], ◌∷◌, none, some, arith, inl, inr,
  Bool-cases, Option-cases, subst, if◌then◌else◌, length,
}
use complicatedauth_backend.Prelude.Text.{trim_space, cut, matches}
use complicatedauth_backend.Db.{ok, result_cases}
use complicatedauth_backend.Keyring.{
  EncryptedValue, EncryptionKeyring, Crypto, IsAead, lookup, is_version, parse_entry, parse_entries,
  empty_keyring, seal, open_value,
}

-- Every key of the one list of keys is in the other.
abbrev Within : List (String × List ℕ) → List (String × List ℕ) → Type 0
Within keys keys' =
    (v : String) (key : List ℕ) → lookup v keys ≡ some key → lookup v keys' ≡ some key

abbrev version_of : String → String
version_of entry = (cut b':' (trim_space entry)).0

-- What one entry adds.
record Entered (crypto : Crypto) (entry : String) (k k' : EncryptionKeyring) : Type 0 where
  key : List ℕ
  decoded : crypto.decode (cut b':' (trim_space entry)).1 ≡ some key
  is_new : lookup (version_of entry) k.keys ≡ none
  keys : k'.keys ≡ (version_of entry, key) ∷ k.keys
  size : length key ≡ 32
  named : str_eq (version_of entry) "" ≡ false
  active :
      k'.active_version
      ≡ (if str_eq k.active_version "" then version_of entry else k.active_version)

is_version-nonempty : (v : String) → is_version v ≡ true → str_eq v "" ≡ false
unfolding is_version matches
is_version-nonempty String.[] h = absurd (ground arith)
is_version-nonempty (String.◌∷◌ c v) h = elim (Bool-cases (str_eq (String.◌∷◌ c v) "")) [
  | inr named ↦ named
  | inl none_left ↦
      let e : String.◌∷◌ c v ≡ "" = (eq_iff (String.◌∷◌ c v) "").0 none_left in absurd (cc)
]

parse_entry-Entered :
    (crypto : Crypto) (entry : String) (k k' : EncryptionKeyring)
    → parse_entry crypto entry k ≡ ok k'
    → Entered crypto entry k k'
unfolding parse_entry
parse_entry-Entered crypto entry k k' h = elim (Bool-cases (is_version (version_of entry))) [
  | inr bad ↦ absurd (ground arith)
  | inl good ↦ elim (Option-cases (lookup (version_of entry) k.keys)) [
    | inr (old, twice) ↦ absurd (ground arith)
    | inl fresh ↦ elim (Option-cases (crypto.decode (cut b':' (trim_space entry)).1)) [
      | inl undecoded ↦ absurd (ground arith)
      | inr (key, decoded) ↦ record {
        key = key;
        decoded = decoded;
        is_new = fresh;
        keys = ground arith;
        size = ground arith;
        named = is_version-nonempty (version_of entry) good;
        active = ground arith;
      }
    ]
  ]
]

-- One round that succeeds, and the rounds after it.
parse_entries-cons :
    (crypto : Crypto) (entry : String) (entries : List String) (k r : EncryptionKeyring)
    → parse_entries crypto (entry ∷ entries) k ≡ ok r
    → (k' : EncryptionKeyring) × Entered crypto entry k k'
      × (parse_entries crypto entries k' ≡ ok r)
unfolding parse_entries
parse_entries-cons crypto entry entries k r h = elim (result_cases (parse_entry crypto entry k)) [
  | inl (e, failed) ↦ absurd (ground arith)
  | inr (k', entered) ↦ (k', parse_entry-Entered crypto entry k k' entered, ground arith)
]

Within-cons :
    (v : String) (key : List ℕ) (keys keys' : List (String × List ℕ))
    → Within keys keys'
    → Within ((v, key) ∷ keys) ((v, key) ∷ keys')
unfolding lookup
Within-cons v key keys keys' w u found h = ground (arith, w u found)

parse_entries-Within :
    (crypto : Crypto) (entries : List String) (k k' r r' : EncryptionKeyring)
    → Within k.keys k'.keys
    → parse_entries crypto entries k ≡ ok r
    → parse_entries crypto entries k' ≡ ok r'
    → Within r.keys r'.keys
unfolding parse_entries
parse_entries-Within crypto [] k k' r r' w h h' =
    let same : k ≡ r = ground arith in let same' : k' ≡ r' = ground arith in rw (← same, ← same') w
parse_entries-Within crypto (entry ∷ entries) k k' r r' w h h' =
    let (j, e, rest) = parse_entries-cons crypto entry entries k r h in
    let (j', e', rest') = parse_entries-cons crypto entry entries k' r' h' in
    let same : e.key ≡ e'.key = ground (arith, e.decoded, e'.decoded) in
    parse_entries-Within crypto entries j j' r r'
      (rw (e.keys, e'.keys, same) (Within-cons (version_of entry) e'.key k.keys k'.keys w)) rest
      rest'

-- A keyring that can seal.
record IsReady (k : EncryptionKeyring) : Type 0 where
  key : List ℕ
  found : lookup k.active_version k.keys ≡ some key
  size : length key ≡ 32
  named : str_eq k.active_version "" ≡ false

IsReady-Entered :
    (crypto : Crypto) (entry : String) (k k' : EncryptionKeyring)
    → IsReady k
    → Entered crypto entry k k'
    → IsReady k'
unfolding lookup
IsReady-Entered crypto entry k k' ready e =
    let kept : k'.active_version ≡ k.active_version = ground (arith, e.active, ready.named) in
    let held : lookup k.active_version ((version_of entry, e.key) ∷ k.keys) ≡ some ready.key =
      ground (arith, ready.found, e.is_new, eq_iff (version_of entry) k.active_version) in
    record {
      key = ready.key;
      found = rw (kept, e.keys, held);
      size = ready.size;
      named = rw (kept, ready.named);
    }

IsReady-first :
    (crypto : Crypto) (entry : String) (k' : EncryptionKeyring)
    → Entered crypto entry empty_keyring k'
    → IsReady k'
unfolding lookup
IsReady-first crypto entry k' e =
    let kept : k'.active_version ≡ version_of entry = e.active in
    let held : lookup (version_of entry) ((version_of entry, e.key) ∷ []) ≡ some e.key =
      ground (arith, eq_iff (version_of entry) (version_of entry)) in
    record {
      key = e.key;
      found = rw (kept, e.keys, held);
      size = e.size;
      named = rw (kept, e.named);
    }

parse_entries-IsReady :
    (crypto : Crypto) (entries : List String) (k r : EncryptionKeyring)
    → IsReady k
    → parse_entries crypto entries k ≡ ok r
    → IsReady r
unfolding parse_entries
parse_entries-IsReady crypto [] k r ready h =
    let same : k ≡ r = ground arith in subst IsReady same ready
parse_entries-IsReady crypto (entry ∷ entries) k r ready h =
    let (k', e, rest) = parse_entries-cons crypto entry entries k r h in
    parse_entries-IsReady crypto entries k' r (IsReady-Entered crypto entry k k' ready e) rest

Within-none : (keys : List (String × List ℕ)) → Within [] keys
unfolding lookup
Within-none keys v key h = absurd (ground arith)

-- Rotation loses nothing: what a parsed keyring seals, with a nonce of the cipher's size, it opens
-- itself, and so does the keyring that is parsed from the same entries behind a newer one.
pub rotated_keyring_opens :
    (crypto : Crypto)
    → IsAead crypto
    → (newer entry : String) (entries : List String) (k k' : EncryptionKeyring)
    → parse_entries crypto (entry ∷ entries) empty_keyring ≡ ok k
    → parse_entries crypto (newer ∷ entry ∷ entries) empty_keyring ≡ ok k'
    → (nonce plaintext context : List ℕ) → length nonce ≡ crypto.nonce_size
    → (value : EncryptedValue) × (seal crypto k (some nonce) plaintext context ≡ ok value)
      × (open_value crypto k value context ≡ ok plaintext)
      × (open_value crypto k' value context ≡ ok plaintext)
unfolding seal
rotated_keyring_opens crypto aead newer entry entries k k' h h' nonce plaintext context n =
    let (j, e, rest) = parse_entries-cons crypto entry entries empty_keyring k h in
    let (j', e', rest') = parse_entries-cons crypto newer (entry ∷ entries) empty_keyring k' h' in
    let ready = parse_entries-IsReady crypto entries j k (IsReady-first crypto entry j e) rest in
    let held =
      parse_entries-Within crypto (entry ∷ entries) empty_keyring j' k k' (Within-none j'.keys) h
        rest' k.active_version ready.key ready.found in
    let accepted = aead.accepts_32 ready.key ready.size in
    let opened = aead.opens ready.key nonce plaintext context n in
    (
      record {
        key_version = k.active_version;
        nonce = nonce;
        ciphertext = crypto.seal_with ready.key nonce plaintext context;
      },
      ground (arith, ready.named, ready.found),
      unfold open_value in ground (arith, ready.found),
      unfold open_value in ground arith,
    )
