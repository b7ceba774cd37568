-- ===== src/Access/Keys.antt =====
-- internal/access/service.go: how the keys of different kinds in the store relate.
use text.Mathlib.TextLemmas.{cons-append}
use nats_guest_access.Prelude.{
  ℕ, String, ◌≡◌, ◌≢◌, refl, ap, true, false, arith, has_prefix, has_prefix-append, append_cancel,
}
use nats_guest_access.Access.{
  event_key, invitation_key, session_key, receipt_key, slot_prefix, slot_key,
}

-- Keys that a prefix tells apart are different.
pub apart : (p a b : String) → has_prefix p a ≡ true → has_prefix p b ≡ false → a ≢ b
apart p a b h k e = cc (ap (has_prefix p) e)

pub event_key-prefix : (id : String) → has_prefix "event." (event_key id) ≡ true
unfolding event_key
event_key-prefix id = has_prefix-append "event." id

pub event_key-injective : (a b : String) → event_key a ≡ event_key b → a ≡ b
unfolding event_key
event_key-injective a b h = append_cancel "event." a b h

pub not_event_slot_prefix :
    (id k : String) → has_prefix (slot_prefix id) k ≡ true → has_prefix "event." k ≡ false
unfolding slot_prefix has_prefix
not_event_slot_prefix id String.[] h = refl
not_event_slot_prefix id (String.◌∷◌ c k) h = let h' = rw cons-append at h in ground arith

pub not_event_slot : (id : String) (n : ℕ) → has_prefix "event." (slot_key id n) ≡ false
unfolding slot_key has_prefix
not_event_slot id n = rw cons-append refl

pub not_event_session : (d : String) → has_prefix "event." (session_key d) ≡ false
unfolding session_key has_prefix
not_event_session d = rw cons-append refl

pub not_event_invitation : (d : String) → has_prefix "event." (invitation_key d) ≡ false
unfolding invitation_key has_prefix
not_event_invitation d = rw cons-append refl

pub not_event_receipt : (id : String) → has_prefix "event." (receipt_key id) ≡ false
unfolding receipt_key has_prefix
not_event_receipt id = rw cons-append refl
