-- ===== src/Payload/Shapes.antt =====
-- TLS records against the test for SSH.
use ti_features.Prelude.{ℕ, ◌≤◌, ◌≡◌, true, List, length, arith}
use ti_features.Payload.{looks_like_tls, looks_like_ssh}

-- Every payload of at least four bytes that looks like TLS looks like SSH too: the test for a
-- binary SSH packet takes the type and the version of a TLS record for a small length.
pub looks_like_ssh-tls :
    (payload : List ℕ)
    → 4 ≤ length payload
    → looks_like_tls payload ≡ true
    → looks_like_ssh payload ≡ true
unfolding looks_like_tls looks_like_ssh
looks_like_ssh-tls payload long tls = ground arith
