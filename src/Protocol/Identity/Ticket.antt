-- ===== src/Protocol/Identity/Ticket.antt =====
-- What a pairing ticket promises: who can use it, until when and how often.
use winbridge.Base.{
  ℕ, suc, ◌+◌, ◌-◌, ◌≤◌, ◌<◌, ◌≡◌, ◌≢◌, ◌↔◌, refl, ap, sym, ◌∙◌, Bool, true, String, List, [], ◌∷◌,
  Result, ok, err, arith, same_units, eq_iff, Result-cases, inl, inr, ◌>>=◌, units,
}
use winbridge.Protocol.Identity.{
  hex_bytes, drop_prefix, PairingTicket, PairedDevice, is_pairing_ticket, is_pairing_ticket_expired,
  is_pairing_code_hash, pairing_code_hashes_match, pairing_code_hash_digest, hash_pairing_code,
  create_pairing_ticket, consume_pairing_ticket, create_paired_device, assert_bounded_integer,
}

-- The ticket behind one use of it.
abbrev pub spend : PairingTicket → PairingTicket
spend t = record t { remaining_uses = t.remaining_uses - 1 }

spend-is_pairing_ticket :
    (t : PairingTicket) → is_pairing_ticket t ≡ true → is_pairing_ticket (spend t) ≡ true
unfolding is_pairing_ticket
spend-is_pairing_ticket t h = ground arith

same_units_refl : (xs : List ℕ) → same_units xs xs ≡ true
same_units_refl [] = refl
same_units_refl (x ∷ xs) = ground (arith, same_units_refl xs)

pairing_code_hashes_match_refl :
    (h : String) → is_pairing_code_hash h ≡ true → pairing_code_hashes_match h h ≡ ok true
unfolding pairing_code_hashes_match pairing_code_hash_digest
pairing_code_hashes_match_refl h e =
    let digest = hex_bytes (drop_prefix (units "sha256:") (units h)) in
    rw e (ap {B = Result Bool} ok (same_units_refl digest))

module _ (sha256_hex : String → String) where
  -- What a use of a ticket needs, as equations and orders.
  pub record IsUsable (t : PairingTicket) (code : String) (now : ℕ) : Type 0 where
    pub valid : is_pairing_ticket t ≡ true
    pub live : now < t.expires_at
    pub left : 0 < t.remaining_uses
    pub matching :
        (hash_pairing_code sha256_hex code t.pairing_code_salt
          >>= pairing_code_hashes_match t.pairing_code_hash)
        ≡ ok true

  IsUsable-of_consume :
      (t t' : PairingTicket) (code : String) (now : ℕ)
      → consume_pairing_ticket sha256_hex t code now ≡ ok t'
      → IsUsable t code now × (t' ≡ spend t)
  unfolding consume_pairing_ticket is_pairing_ticket_expired
  IsUsable-of_consume t t' code now e = (
    record {
      valid = ground arith;
      live = ground arith;
      left = ground arith;
      matching = ground arith;
    },
    ground arith,
  )

  consume_of_usable :
      (t : PairingTicket) (code : String) (now : ℕ)
      → IsUsable t code now
      → consume_pairing_ticket sha256_hex t code now ≡ ok (spend t)
  unfolding consume_pairing_ticket is_pairing_ticket_expired
  consume_of_usable t code now u = ground (arith, spend-is_pairing_ticket t)

  -- A ticket is used exactly when it is valid, alive, not used up, and the code's hash matches; a
  -- use takes one from the uses that remain and changes nothing else.
  pub consume_pairing_ticket_iff :
      (t t' : PairingTicket) (code : String) (now : ℕ)
      → (consume_pairing_ticket sha256_hex t code now ≡ ok t')
        ↔ (IsUsable t code now × (t' ≡ spend t))
  consume_pairing_ticket_iff t t' code now =
      (IsUsable-of_consume t t' code now, λ p. consume_of_usable t code now p.0 ∙ ap ok (sym p.1))

  hash_of_create :
      (session_id host_device_id code : String) (ttl max_uses now : ℕ) (pairing_id salt : String)
      (t : PairingTicket)
      → create_pairing_ticket sha256_hex session_id host_device_id code ttl max_uses now pairing_id
          salt
        ≡ ok t
      → (hash_pairing_code sha256_hex code t.pairing_code_salt ≡ ok t.pairing_code_hash)
        × (is_pairing_ticket t ≡ true)
        × (t.created_at ≡ now)
        × (t.expires_at ≡ now + ttl)
        × (t.remaining_uses ≡ max_uses)
        × (1 ≤ max_uses)
        × (t.host_device_id ≡ host_device_id)
        × (t.session_id ≡ session_id)
  unfolding create_pairing_ticket assert_bounded_integer
  hash_of_create session_id host_device_id code ttl max_uses now pairing_id salt t e = (
    ground arith,
    ground arith,
    ground arith,
    ground arith,
    ground arith,
    ground arith,
    ground arith,
    ground arith,
  )

  -- A new ticket is accepted with the code that it was made for, at any time of its life.
  pub consume-create :
      (session_id host_device_id code : String) (ttl max_uses now : ℕ) (pairing_id salt : String)
      (t : PairingTicket) (later : ℕ)
      → create_pairing_ticket sha256_hex session_id host_device_id code ttl max_uses now pairing_id
          salt
        ≡ ok t
      → later < now + ttl
      → consume_pairing_ticket sha256_hex t code later ≡ ok (spend t)
  unfolding is_pairing_ticket
  consume-create session_id host_device_id code ttl max_uses now pairing_id salt t later e live =
      let (hashed, valid, made, ends, uses, least, host, session) =
        hash_of_create session_id host_device_id code ttl max_uses now pairing_id salt t e in
      consume_of_usable t code later (record {
        valid = valid;
        live = omega arith;
        left = omega arith;
        matching = rw hashed (pairing_code_hashes_match_refl t.pairing_code_hash (ground arith));
      })

  -- A list of attempts on one ticket: the ticket at the end, and how many were let through.
  pub attempts : PairingTicket → List (String × ℕ) → PairingTicket × ℕ
  attempts t [] = (t, 0)
  attempts t ((code, now) ∷ rest) = elim (consume_pairing_ticket sha256_hex t code now) [
    | err e ↦ attempts t rest
    | ok t' ↦ let r = attempts t' rest in (r.0, suc r.1)
  ]

  -- A ticket lets through at most as many attempts as it has uses, and counts them down.
  pub attempts_bounded :
      (t : PairingTicket) (tries : List (String × ℕ))
      → (attempts t tries).1 + (attempts t tries).0.remaining_uses ≡ t.remaining_uses
  unfolding attempts
  attempts_bounded t [] = omega arith
  attempts_bounded t ((code, now) ∷ rest) =
      elim (Result-cases (consume_pairing_ticket sha256_hex t code now)) [
        | inl (e, refused) ↦ rw (refused, attempts) (attempts_bounded t rest)
        | inr (t', used) ↦
            let (u, spent) = IsUsable-of_consume t t' code now used in
            let uses : t'.remaining_uses ≡ t.remaining_uses - 1 =
              ap (λ (s : PairingTicket). s.remaining_uses) spent in
            let left : 0 < t.remaining_uses = u.left in
            rw (used, attempts) (omega (arith, attempts_bounded t' rest))
      ]

-- A paired device is of the ticket's pairing, session and host and of the viewer's device, which is
-- not the host's. It carries the time of the call, which is in the ticket's life.
pub create_paired_device-eq-ok :
    (t : PairingTicket) (viewer : String) (now : ℕ) (d : PairedDevice)
    → create_paired_device t viewer now ≡ ok d
    → (d.viewer_device_id ≡ viewer)
      × (d.host_device_id ≡ t.host_device_id)
      × (d.session_id ≡ t.session_id)
      × (viewer ≢ t.host_device_id)
      × (d.pairing_id ≡ t.pairing_id)
      × (d.paired_at ≡ now)
      × (t.created_at ≤ d.paired_at)
      × (d.paired_at < t.expires_at)
unfolding create_paired_device
create_paired_device-eq-ok t viewer now d e = (
  ground arith,
  ground arith,
  ground arith,
  ground (arith, eq_iff viewer t.host_device_id),
  ground arith,
  ground arith,
  ground arith,
  ground arith,
)
