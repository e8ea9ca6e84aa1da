-- ===== src/Socks5/Handshake.antt =====
-- The method negotiation and the password sub-negotiation of the client.
use mutiauk.Base.{
  ℕ, suc, ◌<◌, ◌≡◌, ◌⊎◌, [], ◌∷◌, ◌++◌, Bytes, Text, length, get_or, arith, get_or-take,
}
use mutiauk.Base.Conn.{Conn, ok}
use mutiauk.Socks5.Address.{version}
use mutiauk.Socks5.Client.{
  Authenticator, no_auth, user_pass_auth, method, auth_request, authenticate, handshake,
}

abbrev pub greeting : Authenticator → Bytes
greeting auth = version ∷ 1 ∷ method auth ∷ []

-- With no credentials the dialogue is the greeting and an answer that selects no authentication:
-- the client then leaves everything behind the answer to be read.
pub handshake_no_auth :
    (c : Conn) (rest : Bytes) (n : ℕ)
    → c.input ≡ version ∷ 0 ∷ rest
    → c.writes_left ≡ suc n
    → handshake no_auth c
      ≡ (ok tt, record { input = rest; output = c.output ++ greeting no_auth; writes_left = n })
unfolding handshake authenticate
handshake_no_auth c rest n hi hw = ground arith

-- A server of RFC 1929 that selects the password method, and then accepts.
pub handshake_password :
    (c : Conn) (rest : Bytes) (username password : Text) (v n : ℕ)
    → length username < 256
    → length password < 256
    → c.input ≡ version ∷ 2 ∷ v ∷ 0 ∷ rest
    → c.writes_left ≡ suc (suc n)
    → handshake (user_pass_auth username password) c ≡ (
      ok tt,
      record {
        input = rest;
        output =
            (c.output ++ greeting (user_pass_auth username password))
            ++ auth_request username password;
        writes_left = n;
      },
    )
unfolding handshake authenticate
handshake_password c rest username password v n hu hp hi hw = ground arith

-- A handshake that succeeds had the server's answer: this version, and the method offered.
pub handshake_answered :
    (auth : Authenticator) (c : Conn)
    → (handshake auth c).0 ≡ ok tt
    → (get_or c.input 0 0 ≡ version) × (get_or c.input 1 0 ≡ method auth)
unfolding handshake
handshake_answered auth c h = ground (arith, get_or-take 2 0 c.input 0, get_or-take 2 1 c.input 0)

-- The outputs that a handshake with a password can leave behind.
abbrev pub Reveals : Conn → Text → Text → Bytes → Type 0
Reveals c username password out =
    (out ≡ c.output)
    ⊎ (out ≡ c.output ++ greeting (user_pass_auth username password))
    ⊎ ((out
          ≡ (c.output ++ greeting (user_pass_auth username password))
            ++ auth_request username password)
        × (get_or c.input 0 0 ≡ version)
        × (get_or c.input 1 0 ≡ 2)
        × (length username < 256)
        × (length password < 256))

-- The credentials leave the client only towards a server that selected the password method, and
-- only if the length of each fits its byte.
pub handshake-Reveals :
    (c : Conn) (username password : Text)
    → Reveals c username password (handshake (user_pass_auth username password) c).1.output
unfolding handshake authenticate
handshake-Reveals c username password =
    ground (arith, get_or-take 2 0 c.input 0, get_or-take 2 1 c.input 0)
