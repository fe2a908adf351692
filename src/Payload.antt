-- ===== src/Payload.antt =====
-- src/calc_payload.cpp, what a payload looks like, and the functions of src/calc_basic.cpp called
-- for each payload: its magic numbers and its statistics.
pub mod Magic
pub mod Shapes
pub mod Entropy
pub mod Stats
pub mod Bytes
use ti_features.Prelude.{
  ℕ, zero, suc, ◌+◌, ◌-◌, ◌*◌, ◌/◌, ◌%◌, Bool, true, false, not, ◌&&◌, ◌||◌, List, [], ◌∷◌, add32,
  ltb, leb, ◌==◌, is_set, if◌then◌else◌, get_or, set, length, drop, map,
}
use ti_features.Double.{Double}
use ti_features.CircularBuffer.{CircularBuffer, push}
use ti_features.MemoryPool.{zeroed_ℕ}
use ti_features.BoundedArray.{BoundedArray, append}
use ti_features.FeatureStats.{RunningStats, running_stats_update}

-- `data[i]`, for a payload as the list of its bytes.
abbrev pub at : List ℕ → ℕ → ℕ
at bytes i = get_or bytes i 0

-- `memcmp(data, text, n) == 0` for a text of n bytes.
abbrev pub starts_with : List ℕ → List ℕ → Bool
starts_with bytes [] = true
starts_with [] (t ∷ text) = false
starts_with (b ∷ bytes) (t ∷ text) = (b == t) && starts_with bytes text

-- The texts, in ASCII: "GET ", "POST ", "PUT ", "HEAD ", "HTTP", "SSH-", "<?xml", "PNG" and "GIF8".
abbrev pub get_text : List ℕ
get_text = 71 ∷ 69 ∷ 84 ∷ 32 ∷ []

abbrev pub post_text : List ℕ
post_text = 80 ∷ 79 ∷ 83 ∷ 84 ∷ 32 ∷ []

abbrev pub put_text : List ℕ
put_text = 80 ∷ 85 ∷ 84 ∷ 32 ∷ []

abbrev pub head_text : List ℕ
head_text = 72 ∷ 69 ∷ 65 ∷ 68 ∷ 32 ∷ []

abbrev pub http_text : List ℕ
http_text = 72 ∷ 84 ∷ 84 ∷ 80 ∷ []

abbrev pub ssh_text : List ℕ
ssh_text = 83 ∷ 83 ∷ 72 ∷ 45 ∷ []

abbrev pub xml_text : List ℕ
xml_text = 60 ∷ 63 ∷ 120 ∷ 109 ∷ 108 ∷ []

abbrev pub png_text : List ℕ
png_text = 80 ∷ 78 ∷ 71 ∷ []

abbrev pub gif8_text : List ℕ
gif8_text = 71 ∷ 73 ∷ 70 ∷ 56 ∷ []

-- `payload_looks_like_http`
unfoldable pub looks_like_http : List ℕ → Bool
looks_like_http bytes =
    let len = length bytes in
    not (ltb len 4)
    && (starts_with bytes get_text
        || (leb 5 len && starts_with bytes post_text)
        || starts_with bytes put_text
        || (leb 5 len && starts_with bytes head_text)
        || starts_with bytes http_text)

-- `payload_looks_like_json`: { or [ at the start and } or ] at the end.
unfoldable pub looks_like_json : List ℕ → Bool
looks_like_json bytes =
    let len = length bytes in
    not (ltb len 2)
    && ((at bytes 0 == 123) || (at bytes 0 == 91))
    && ((at bytes (len - 1) == 125) || (at bytes (len - 1) == 93))

-- `payload_looks_like_xml`: < at the start.
unfoldable pub looks_like_xml : List ℕ → Bool
looks_like_xml bytes =
    not (ltb (length bytes) 5) && (starts_with bytes xml_text || (at bytes 0 == 60))

-- `payload_looks_like_tls`
unfoldable pub looks_like_tls : List ℕ → Bool
looks_like_tls bytes =
    not (ltb (length bytes) 3)
    && ((at bytes 0 == 0x16) || (at bytes 0 == 0x17) || (at bytes 0 == 0x15))
    && (at bytes 1 == 3)

-- `payload_looks_like_ssh`
unfoldable pub looks_like_ssh : List ℕ → Bool
looks_like_ssh bytes =
    let len = length bytes in
    not (ltb len 4)
    && (starts_with bytes ssh_text || (leb 4 len && ltb (at bytes 0) 200 && ltb (at bytes 1) 10))

-- The `payload_magic_` fields of `flow_feature_state_t`.
pub record Magics : Type 0 where
  pub http_get : ℕ
  pub http_post : ℕ
  pub tls_1_0 : ℕ
  pub tls_1_1 : ℕ
  pub tls_1_2 : ℕ
  pub tls_1_3 : ℕ
  pub ssh : ℕ
  pub jpeg : ℕ
  pub png : ℕ
  pub gif : ℕ

-- `if (test) flag = 1`
abbrev pub set_if : Bool → ℕ → ℕ
set_if test flag = if test then 1 else flag

-- The test for a TLS handshake record of any version.
abbrev pub is_tls : List ℕ → Bool
is_tls payload = leb 3 (length payload) && (at payload 0 == 0x16) && (at payload 1 == 3)

-- `calc_payload_magic`
unfoldable pub calc_payload_magic : Magics → List ℕ → Magics
calc_payload_magic s payload =
    let len = length payload in
    if ltb len 4 then s else record {
      http_get = set_if (leb 4 len && starts_with payload get_text) s.http_get;
      http_post = set_if (leb 5 len && starts_with payload post_text) s.http_post;
      tls_1_0 = set_if (is_tls payload && ((at payload 2 == 0) || (at payload 2 == 1))) s.tls_1_0;
      tls_1_1 = set_if (is_tls payload && (at payload 2 == 2)) s.tls_1_1;
      tls_1_2 = set_if (is_tls payload && (at payload 2 == 3)) s.tls_1_2;
      tls_1_3 = set_if (is_tls payload && (at payload 2 == 4)) s.tls_1_3;
      ssh = set_if (leb 4 len && starts_with payload ssh_text) s.ssh;
      jpeg = set_if (leb 2 len && (at payload 0 == 0xFF) && (at payload 1 == 0xD8)) s.jpeg;
      png =
          set_if (leb 4 len && (at payload 0 == 0x89) && starts_with (drop 1 payload) png_text)
            s.png;
      gif =
          set_if
            (leb 6 len
              && starts_with payload gif8_text
              && ((at payload 4 == 55) || (at payload 4 == 57))
              && (at payload 5 == 97))
            s.gif;
    }
