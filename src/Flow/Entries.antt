-- ===== src/Flow/Entries.antt =====
-- src/ti_features.cpp, TI_FEATURES_SSL_ENTRY and TI_FEATURES_QUIC_ENTRY: the server name of a
-- handshake is copied into a buffer of MAX_DOMAIN_LEN bytes and put on the bridge.
-- A name is the list of its characters before the terminating 0. It is `none` where a pointer on
-- the way to it is null.
use ti_features.Prelude.{
  ℕ, zero, suc, ◌-◌, ◌<◌, ◌≡◌, ◌≢◌, refl, ap, sym, ◌∙◌, Bool, true, false, not, ◌&&◌, Option, none,
  some, List, [], ◌∷◌, ◌++◌, length, length-append, length-replicate, length-take, take, replicate,
  arith, ltb, if◌then◌else◌, inl, inr, Bool-cases,
}
use ti_features.BoundedArray.{take_all}
use ti_features.Config.{Config, sni_bridge_enabled}

-- MAX_DOMAIN_LEN
abbrev pub max_domain_len : ℕ
max_domain_len = 128

-- What an entry does with the buffer: nothing where there is none, put on the bridge of an id, or
-- freed again where `stream_bridge_async_data_put` fails.
pub data SniFate : Type 0 where
  no_buffer : SniFate
  put_on : Option ℕ → List ℕ → SniFate
  freed : SniFate

-- The buffer: zeroed memory with the characters copied to its start.
unfoldable pub copy_sni : List ℕ → List ℕ
copy_sni name =
    let len = if ltb (length name) (max_domain_len - 1) then length name else max_domain_len - 1 in
    take len name ++ replicate (max_domain_len - len) 0

-- What follows the test that there is a name.
unfoldable pub put_sni : Config → Bool → Bool → List ℕ → SniFate
unfolding copy_sni
put_sni cfg has_buffer put_works name =
    if has_buffer
    then (if put_works then put_on cfg.sni_bridge_id (copy_sni name) else freed)
    else no_buffer

-- TI_FEATURES_SSL_ENTRY and TI_FEATURES_QUIC_ENTRY, whose answer is always PROT_STATE_GIVEME:
-- `is_hello` is whether `prot_flag` is SSL_CLIENT_HELLO or QUIC_CLIENT_HELLO.
unfoldable pub sni_entry : Config → Bool → Bool → Bool → Option (List ℕ) → SniFate
unfolding put_sni
sni_entry cfg is_hello has_buffer put_works none = no_buffer
sni_entry cfg is_hello has_buffer put_works (some name) =
    if (is_hello && sni_bridge_enabled cfg) && ltb 0 (length name)
    then put_sni cfg has_buffer put_works name
    else no_buffer

-- The C string at the start of a buffer: its characters before the first 0.
abbrev pub c_string : List ℕ → List ℕ
c_string [] = []
c_string (zero ∷ bytes) = []
c_string (suc b ∷ bytes) = suc b ∷ c_string bytes

-- Characters of a C string.
abbrev pub AreNonzero : List ℕ → Type 0
AreNonzero [] = Unit {0}
AreNonzero (b ∷ bytes) = (b ≢ 0) × AreNonzero bytes

c_string-append :
    (xs ys : List ℕ) (n : ℕ) → AreNonzero xs → c_string (take n xs ++ (0 ∷ ys)) ≡ take n xs
c_string-append xs ys zero h = refl
c_string-append [] ys (suc n) h = refl
c_string-append (zero ∷ xs) ys (suc n) (h, hs) = absurd (h refl)
c_string-append (suc x ∷ xs) ys (suc n) (h, hs) = ap (◌∷◌ (suc x)) (c_string-append xs ys n hs)

copy_sni_eq :
    (name : List ℕ) (n : ℕ)
    → n < max_domain_len
    → take n name ++ replicate (max_domain_len - n) 0
      ≡ take n name ++ (0 ∷ replicate (max_domain_len - 1 - n) 0)
copy_sni_eq name n h =
    ap (λ k. take n name ++ replicate k 0) {y = suc (max_domain_len - 1 - n)} (omega arith)

copy_sni-c_string :
    (name : List ℕ)
    → AreNonzero name
    → (length (copy_sni name) ≡ max_domain_len)
      × (c_string (copy_sni name) ≡ take (max_domain_len - 1) name)
unfolding copy_sni
copy_sni-c_string name h =
    let n = if ltb (length name) (max_domain_len - 1) then length name else max_domain_len - 1 in
    let small : n < max_domain_len = ground arith in
    (
      length-append (take n name) (replicate (max_domain_len - n) 0)
          ∙ ground (arith, length-take n name, length-replicate {A = ℕ} (max_domain_len - n) 0),
      ap c_string (copy_sni_eq name n small)
          ∙ c_string-append name (replicate (max_domain_len - 1 - n) 0) n h
          ∙ shortest name,
    )
  where
    shortest :
        (name : List ℕ)
        → take
            (if ltb (length name) (max_domain_len - 1) then length name else max_domain_len - 1)
            name
          ≡ take (max_domain_len - 1) name
    shortest name = elim (Bool-cases (ltb (length name) (max_domain_len - 1))) [
      | inl e ↦
          rw e (take_all name (length name) (omega arith) ∙ sym (take_all name 127 (ground arith)))
      | inr e ↦ rw e refl
    ]

-- The two ways in which a buffer leaves the entry.
abbrev pub is_put : SniFate → Bool
is_put (put_on id buffer) = true
is_put no_buffer = false
is_put freed = false

abbrev pub is_freed : SniFate → Bool
is_freed freed = true
is_freed no_buffer = false
is_freed (put_on id buffer) = false

-- A buffer on the bridge of the configuration's id holds so much of a name as a C string.
abbrev pub CarriesName : Config → List ℕ → SniFate → Type 0
CarriesName cfg name (put_on id buffer) =
    (id ≡ cfg.sni_bridge_id)
    × (length buffer ≡ max_domain_len)
    × (c_string buffer ≡ take (max_domain_len - 1) name)
CarriesName cfg name no_buffer = Unit {0}
CarriesName cfg name freed = Unit {0}

put_sni-fate :
    (cfg : Config) (has_buffer put_works : Bool) (name : List ℕ)
    → AreNonzero name
    → let fate = put_sni cfg has_buffer put_works name in
      (is_put fate ≡ (has_buffer && put_works))
      × (is_freed fate ≡ (has_buffer && not put_works))
      × CarriesName cfg name fate
unfolding put_sni
put_sni-fate cfg true true name h =
    let (long, same) = copy_sni-c_string name h in (refl, refl, (refl, long, same))
put_sni-fate cfg true false name h = (refl, refl, tt)
put_sni-fate cfg false put_works name h = (refl, refl, tt)

-- A name of a handshake is put on the bridge exactly if it is a client hello with a name that is
-- not empty, the bridge is on, there is memory for the buffer, and the put works; the buffer is
-- freed exactly if all of this holds but that the put fails. What is put has MAX_DOMAIN_LEN bytes and
-- goes to the bridge of the configuration as a C string of the name's first characters, as many
-- as leave room for the 0 at the end.
pub sni_entry_lem :
    (cfg : Config) (is_hello has_buffer put_works : Bool) (name : List ℕ)
    → AreNonzero name
    → let fate = sni_entry cfg is_hello has_buffer put_works (some name) in
      let wanted = (is_hello && sni_bridge_enabled cfg) && ltb 0 (length name) in
      (is_put fate ≡ (wanted && (has_buffer && put_works)))
      × (is_freed fate ≡ (wanted && (has_buffer && not put_works)))
      × CarriesName cfg name fate
unfolding sni_entry
sni_entry_lem cfg is_hello has_buffer put_works name h =
    elim (Bool-cases ((is_hello && sni_bridge_enabled cfg) && ltb 0 (length name))) [
      | inl e ↦ rw e (put_sni-fate cfg has_buffer put_works name h)
      | inr e ↦ rw e (refl, refl, tt)
    ]
