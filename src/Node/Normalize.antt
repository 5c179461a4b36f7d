-- ===== src/Node/Normalize.antt =====
-- `Node.normalize` of models.py: what a normalized node is, and that normalizing again is free.
use v2pi.Base.{
  ◌≡◌, ◌≢◌, ◌⊎◌, refl, sym, ◌∙◌, arith, eq_iff, String, str_eq, Bool-cases, inl, inr, true,
}
use v2pi.Node.{Node, normalize, is_protocol, known_protocol, safe_security, text_or}

data Protocol (p : String) : Type 0 where
  vless : p ≡ "vless" → Protocol p
  trojan : p ≡ "trojan" → Protocol p
  shadowsocks : p ≡ "shadowsocks" → Protocol p

known_protocol-Protocol : (p : String) → Protocol (known_protocol p)
unfolding known_protocol
known_protocol-Protocol p = elim (Bool-cases (str_eq p "vless")) [
  | inl v ↦ rw v (Protocol.vless ((eq_iff p "vless").0 v))
  | inr nv ↦ elim (Bool-cases (str_eq p "trojan")) [
    | inl t ↦ rw (nv, t) (Protocol.trojan ((eq_iff p "trojan").0 t))
    | inr nt ↦ elim (Bool-cases (str_eq p "shadowsocks")) [
      | inl s ↦ rw (nv, nt, s) (Protocol.shadowsocks ((eq_iff p "shadowsocks").0 s))
      | inr ns ↦ rw (nv, nt, ns) (Protocol.vless refl)
    ]
  ]
]

safe_security_cases :
    (s k : String) → ((safe_security s k ≡ "reality") × (k ≢ "")) ⊎ (safe_security s k ≡ "tls")
unfolding safe_security
safe_security_cases s k = ground (arith, eq_iff s "reality", eq_iff s "tls", eq_iff k "")

safe_security_idem : (s k : String) → safe_security (safe_security s k) k ≡ safe_security s k
unfolding safe_security
safe_security_idem s k = ground (arith, eq_iff s "reality", eq_iff s "tls")

text_or_idem : (a b : String) → text_or (text_or a b) b ≡ text_or a b
text_or_idem a b = ground arith

-- The fields agree with one another: what the config builder relies on.
pub record IsCoherent (n : Node) : Type 0 where
  pub protocol : is_protocol n.protocol ≡ true
  pub ciphered : n.protocol ≢ "shadowsocks" → (n.security ≡ "reality") ⊎ (n.security ≡ "tls")
  pub shadowsocks : n.protocol ≡ "shadowsocks" → (n.security ≡ "none") × (n.method ≢ "")
  pub keyed : n.security ≡ "reality" → n.public_key ≢ ""
  pub network : (n.network ≡ "xhttp") ⊎ (n.network ≡ "tcp")
  pub xhttp : n.network ≡ "xhttp" → (n.protocol ≡ "vless") × (n.transport ≡ "xhttp") × (n.flow ≡ "")

-- Normalizing a normalized node changes nothing, so it is safe on rows read back and on every edit.
pub normalize_idem : (n : Node) → normalize (normalize n) ≡ normalize n
unfolding normalize
normalize_idem n = elim (known_protocol-Protocol n.protocol) [
  | Protocol.vless e ↦ elim (Bool-cases (str_eq n.transport "xhttp")) [
    | inl x ↦
        rw (e, x) (unfold known_protocol in rw (x, safe_security_idem n.security n.public_key))
    | inr v ↦
        rw (e, v)
          (unfold known_protocol in
            rw (v, safe_security_idem n.security n.public_key)
              (ground (arith, text_or_idem n.flow "xtls-rprx-vision")))
  ]
  | Protocol.trojan e ↦
      rw e (unfold known_protocol in rw (safe_security_idem n.security n.public_key))
  | Protocol.shadowsocks e ↦
      rw e (unfold known_protocol in ground (arith, text_or_idem n.method "aes-128-gcm"))
]

-- What `safe_security` leaves, in the form of two fields of `IsCoherent`.
safe_security-ciphered :
    (s k : String) → (safe_security s k ≡ "reality") ⊎ (safe_security s k ≡ "tls")
safe_security-ciphered s k = ground (arith, safe_security_cases s k)

safe_security-keyed : (s k : String) → safe_security s k ≡ "reality" → k ≢ ""
safe_security-keyed s k h = elim (safe_security_cases s k) [
  | inl r ↦ r.1
  | inr t ↦ absurd (tls-ne-reality (sym t ∙ h))
]
  where
    tls-ne-reality : ◌≢◌ {A = String} "tls" "reality"
    tls-ne-reality = ground (arith, eq_iff "tls" "reality")

-- A normalized node is coherent: its protocol is known; VLESS and Trojan run over reality or tls,
-- and over reality only with a public key; Shadowsocks has a cipher; XHTTP is VLESS without flow.
pub normalize-IsCoherent : (n : Node) → IsCoherent (normalize n)
unfolding normalize
normalize-IsCoherent n = elim (known_protocol-Protocol n.protocol) [
  | Protocol.vless e ↦ elim (Bool-cases (str_eq n.transport "xhttp")) [
    | inl x ↦
        rw (e, x)
          (record {
            protocol = refl;
            ciphered = λ _. safe_security-ciphered n.security n.public_key;
            shadowsocks = λ q. ground (arith, eq_iff "vless" "shadowsocks");
            keyed = safe_security-keyed n.security n.public_key;
            network = inl refl;
            xhttp = λ _. (refl, (eq_iff n.transport "xhttp").0 x, refl);
          })
    | inr v ↦
        rw (e, v)
          (record {
            protocol = refl;
            ciphered = λ _. safe_security-ciphered n.security n.public_key;
            shadowsocks = λ q. ground (arith, eq_iff "vless" "shadowsocks");
            keyed = safe_security-keyed n.security n.public_key;
            network = inr refl;
            xhttp = λ q. ground (arith, eq_iff "tcp" "xhttp");
          })
  ]
  | Protocol.trojan e ↦ rw e (record {
    protocol = refl;
    ciphered = λ _. safe_security-ciphered n.security n.public_key;
    shadowsocks = λ q. ground (arith, eq_iff "trojan" "shadowsocks");
    keyed = safe_security-keyed n.security n.public_key;
    network = inr refl;
    xhttp = λ q. ground (arith, eq_iff "tcp" "xhttp");
  })
  | Protocol.shadowsocks e ↦ rw e (record {
    protocol = refl;
    ciphered = λ q. absurd (q refl);
    shadowsocks = λ _. (refl, ground (arith, eq_iff n.method "", eq_iff "aes-128-gcm" ""));
    keyed = λ q. ground (arith, eq_iff "none" "reality");
    network = inr refl;
    xhttp = λ q. ground (arith, eq_iff "tcp" "xhttp");
  })
]
