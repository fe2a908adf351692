-- ===== src/Payload/Magic.antt =====
-- Magic numbers against the shapes of payloads.
use ti_features.Prelude.{
  ℕ, ◌≤◌, ◌≡◌, Bool, false, not, ◌&&◌, List, [], ◌∷◌, arith, ltb, leb, length, Bool-cases, inl, inr,
}
use ti_features.Payload.{
  Magics, calc_payload_magic, looks_like_http, looks_like_tls, looks_like_ssh, starts_with,
  get_text, post_text, ssh_text, is_tls, set_if,
}
use ti_features.Payload.Stats.{Shapes, update_shapes}

-- Every magic number of HTTP, TLS and SSH that has been seen is in a payload of that shape.
pub record IsCovered (m : Magics) (s : Shapes) : Type 0 where
  pub get : m.http_get ≤ s.http
  pub post : m.http_post ≤ s.http
  pub tls0 : m.tls_1_0 ≤ s.tls
  pub tls1 : m.tls_1_1 ≤ s.tls
  pub tls2 : m.tls_1_2 ≤ s.tls
  pub tls3 : m.tls_1_3 ≤ s.tls
  pub ssh : m.ssh ≤ s.ssh
  pub http_flag : s.http ≤ 1
  pub tls_flag : s.tls ≤ 1
  pub ssh_flag : s.ssh ≤ 1

-- A flag under a stronger test stays below a flag under a weaker one.
set_if_le :
    (strong weak : Bool) (m s : ℕ)
    → strong && not weak ≡ false
    → m ≤ s
    → s ≤ 1
    → set_if strong m ≤ set_if weak s
set_if_le strong weak m s h le small = ground arith

tls_weaker :
    (payload : List ℕ) (test : Bool)
    → (is_tls payload && test) && not (looks_like_tls payload) ≡ false
unfolding looks_like_tls
tls_weaker payload test = ground arith

get_weaker :
    (payload : List ℕ)
    → (leb 4 (length payload) && starts_with payload get_text) && not (looks_like_http payload)
      ≡ false
unfolding looks_like_http
get_weaker payload = ground arith

post_weaker :
    (payload : List ℕ)
    → (leb 5 (length payload) && starts_with payload post_text) && not (looks_like_http payload)
      ≡ false
unfolding looks_like_http
post_weaker payload = ground arith

ssh_weaker :
    (payload : List ℕ)
    → (leb 4 (length payload) && starts_with payload ssh_text) && not (looks_like_ssh payload)
      ≡ false
unfolding looks_like_ssh
ssh_weaker payload = ground arith

shapes-flags :
    (m : Magics) (s : Shapes) (payload : List ℕ)
    → IsCovered m s
    → let new = update_shapes s payload in (new.http ≤ 1) × (new.tls ≤ 1) × (new.ssh ≤ 1)
unfolding update_shapes
shapes-flags m s payload c = ground arith

short-IsCovered :
    (m : Magics) (s : Shapes) (payload : List ℕ)
    → IsCovered m s
    → IsCovered m (update_shapes s payload)
unfolding update_shapes
short-IsCovered m s payload c = ground arith

-- A payload that is checked for its magic number and for its shape keeps this so.
calc_payload_magic-IsCovered :
    (m : Magics) (s : Shapes) (payload : List ℕ)
    → IsCovered m s
    → IsCovered (calc_payload_magic m payload) (update_shapes s payload)
unfolding calc_payload_magic update_shapes
calc_payload_magic-IsCovered m s payload c = elim (Bool-cases (ltb (length payload) 4)) [
  | inl e ↦ rw e (short-IsCovered m s payload c)
  | inr e ↦ rw e (
      let (http1, tls1, ssh1) = shapes-flags m s payload c in
      record {
        get = set_if_le _ _ m.http_get s.http (get_weaker payload) c.get c.http_flag;
        post = set_if_le _ _ m.http_post s.http (post_weaker payload) c.post c.http_flag;
        tls0 = set_if_le _ _ m.tls_1_0 s.tls (tls_weaker payload _) c.tls0 c.tls_flag;
        tls1 = set_if_le _ _ m.tls_1_1 s.tls (tls_weaker payload _) c.tls1 c.tls_flag;
        tls2 = set_if_le _ _ m.tls_1_2 s.tls (tls_weaker payload _) c.tls2 c.tls_flag;
        tls3 = set_if_le _ _ m.tls_1_3 s.tls (tls_weaker payload _) c.tls3 c.tls_flag;
        ssh = set_if_le _ _ m.ssh s.ssh (ssh_weaker payload) c.ssh c.ssh_flag;
        http_flag = http1;
        tls_flag = tls1;
        ssh_flag = ssh1;
      })
]

-- The flags after a run of payloads.
unfoldable pub check_all : Magics × Shapes → List (List ℕ) → Magics × Shapes
check_all flags [] = flags
check_all (m, s) (payload ∷ payloads) =
    check_all (calc_payload_magic m payload, update_shapes s payload) payloads

-- When every payload of a run is checked for its magic number and for its shape, the flags of magic
-- numbers of HTTP, TLS and SSH stay at most those of the shapes, and the flags of these shapes at
-- most 1: a flow in which such a magic number was found looks like that protocol.
pub check_all-IsCovered :
    (m : Magics) (s : Shapes) (payloads : List (List ℕ))
    → IsCovered m s
    → let flags = check_all (m, s) payloads in IsCovered flags.0 flags.1
unfolding check_all
check_all-IsCovered m s [] c = c
check_all-IsCovered m s (payload ∷ payloads) c =
    check_all-IsCovered (calc_payload_magic m payload) (update_shapes s payload) payloads
      (calc_payload_magic-IsCovered m s payload c)
