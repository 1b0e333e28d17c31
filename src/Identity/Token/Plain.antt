-- ===== src/Identity/Token/Plain.antt =====
-- A library of tokens for the tests, and the agent that they speak of.
use kalen.Prelude.{
  String, ◌≢◌, ◌&&◌, none, some, [], ◌∷◌, ltb, arith, ◌==◌, eq_iff, eq_refl, if◌then◌else◌,
}
use kalen.Shared.Json.{Items}
use kalen.Identity.Token.{Claims, Jose, IsJose, strings}

-- a library whose tokens are what they say, with the secret
abbrev pub plain : Jose (Claims × String)
plain = record {
  sign = λ c secret. (c, secret);
  jwt_verify = λ t secret issuer audience now.
      if (t.1 == secret) && ((t.0.iss == issuer) && ((t.0.aud == audience) && ltb now t.0.exp))
      then some t.0
      else none;
}

pub plain-IsJose : IsJose plain
plain-IsJose = record {
  signed = λ c secret now h. ground (arith, eq_refl secret, eq_refl c.iss, eq_refl c.aud);
  expired = λ c secret issuer audience now h. ground arith;
}

pub named : ◌≢◌ {A = String} "u1" ""
named = ground (arith, eq_iff "u1" "")

abbrev pub scopes : Items
scopes = strings ("message:send" ∷ "mcp:tool_call" ∷ [])
