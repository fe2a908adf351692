-- ===== src/Protocol/Services.antt =====
-- src/calc_protocol.cpp, `port_to_protocol`: the name of a port's protocol.
use mathlib.Core.Option.{map}
use ti_features.Prelude.{
  ℕ, ◌==◌, if◌then◌else◌, ◌≡◌, refl, ◌⊎◌, inl, inr, arith, Option, some, none,
}

-- The strings that `port_to_protocol` returns.
pub data Service : Type 0 where
  ftp_data ftp ssh telnet smtp dns http : Service
  pop3 imap https smtps submission imaps pop3s : Service
  mysql rdp postgresql redis http_alt https_alt unknown_service : Service

-- `port_to_protocol`
unfoldable pub port_to_protocol : ℕ → Service
port_to_protocol port =
    if port == 20
    then ftp_data
    else if port == 21
    then ftp
    else if port == 22
    then ssh
    else if port == 23
    then telnet
    else if port == 25
    then smtp
    else if port == 53
    then dns
    else if port == 80
    then http
    else if port == 110
    then pop3
    else if port == 143
    then imap
    else if port == 443
    then https
    else if port == 465
    then smtps
    else if port == 587
    then submission
    else if port == 993
    then imaps
    else if port == 995
    then pop3s
    else if port == 3306
    then mysql
    else if port == 3389
    then rdp
    else if port == 5432
    then postgresql
    else if port == 6379
    then redis
    else if port == 8080
    then http_alt
    else if port == 8443
    then https_alt
    else unknown_service

-- The port that a protocol's name stands for; the name "UNKNOWN" stands for none.
unfoldable pub port_of : Service → Option ℕ
port_of ftp_data = some 20
port_of ftp = some 21
port_of ssh = some 22
port_of telnet = some 23
port_of smtp = some 25
port_of dns = some 53
port_of http = some 80
port_of pop3 = some 110
port_of imap = some 143
port_of https = some 443
port_of smtps = some 465
port_of submission = some 587
port_of imaps = some 993
port_of pop3s = some 995
port_of mysql = some 3306
port_of rdp = some 3389
port_of postgresql = some 5432
port_of redis = some 6379
port_of http_alt = some 8080
port_of https_alt = some 8443
port_of unknown_service = none

-- Every port gets the name that stands for it, or "UNKNOWN".
port_of-port_to_protocol :
    (port : ℕ)
    → (port_to_protocol port ≡ unknown_service) ⊎ (port_of (port_to_protocol port) ≡ some port)
unfolding port_to_protocol port_of
port_of-port_to_protocol port = ground arith

-- Every name but "UNKNOWN" is given to the port that it stands for.
pub port_to_protocol-port_of :
    (service : Service)
    → (service ≡ unknown_service) ⊎ (map port_to_protocol (port_of service) ≡ some service)
unfolding port_to_protocol port_of
port_to_protocol-port_of ftp_data = inr refl
port_to_protocol-port_of ftp = inr refl
port_to_protocol-port_of ssh = inr refl
port_to_protocol-port_of telnet = inr refl
port_to_protocol-port_of smtp = inr refl
port_to_protocol-port_of dns = inr refl
port_to_protocol-port_of http = inr refl
port_to_protocol-port_of pop3 = inr refl
port_to_protocol-port_of imap = inr refl
port_to_protocol-port_of https = inr refl
port_to_protocol-port_of smtps = inr refl
port_to_protocol-port_of submission = inr refl
port_to_protocol-port_of imaps = inr refl
port_to_protocol-port_of pop3s = inr refl
port_to_protocol-port_of mysql = inr refl
port_to_protocol-port_of rdp = inr refl
port_to_protocol-port_of postgresql = inr refl
port_to_protocol-port_of redis = inr refl
port_to_protocol-port_of http_alt = inr refl
port_to_protocol-port_of https_alt = inr refl
port_to_protocol-port_of unknown_service = inl refl
