-- ===== src/Hub/Push/Wake.antt =====
-- Wakes of routes/push.rs: how often they are sent, and what a late answer may remove.
use herdr_mobile.Base.{
  All, beq, beq→eq, ap, is_some, true, false, ◌==◌, Bool-cases, Bytes, List, Option, Option-cases,
  [], arith, beq_refl, inl, inr, is_some_and, ltb, none, refl, some, subst, sym, ℕ, ◌+◌, ◌-◌, ◌<◌,
  ◌∙◌, ◌∷◌, ◌≡◌, ◌≤◌, ◌⊎◌,
}
use herdr_mobile.Base.AssocMap.{get, insert, remove, get-insert, get-remove, get-insert_self}
use herdr_mobile.Hub.Session.{Handle}
use herdr_mobile.Hub.Push.{
  collapse, evict, Platform, Entry, PushStore, last_sent_of, register, take_wake, remove_generation,
  Delivery,
}
use herdr_mobile.Hub.Push.Evict.{get-evict}
use herdr_mobile.Hub.Push.Store.{StoreInv, get-register}

-- A wake is delivered with what the handle's entry holds, and stamps it.
pub take_wake_outcomes :
    (s : PushStore) (handle : Handle) (now : ℕ)
    → (take_wake s handle now ≡ (s, none))
      ⊎ ((e : Entry) × (get handle s.entries ≡ some e)
          × (take_wake s handle now ≡ (
            record s { entries = insert handle (record e { last_sent = some now }) s.entries },
            some (e.platform, e.token, e.generation),
          )))
unfolding take_wake
take_wake_outcomes s handle now = elim (Option-cases (get handle s.entries)) [
  | inl absent ↦ inl (rw (absent, take_wake) refl)
  | inr (e, x) ↦ elim (Bool-cases (is_some_and e.last_sent (λ last. ltb (now - last) collapse))) [
    | inl soon ↦ inl (rw (x, take_wake) (rw soon refl))
    | inr late ↦ inr (e, x, rw (x, take_wake) (rw late refl))
  ]
]

-- A call of the store: of `register`, of `take_wake` with its clock reading, of `remove_generation`,
-- or the removal that an unregistration makes.
pub data Call : Type 0 where
  registers : Handle → Platform → Bytes → Call
  unregisters : Handle → Call
  wakes : Handle → ℕ → Call
  drops : Handle → ℕ → Call

abbrev pub after : PushStore → Call → PushStore
after s (registers handle platform token) = register s handle platform token
after s (unregisters handle) = record s { entries = remove handle s.entries }
after s (wakes handle now) = (take_wake s handle now).0
after s (drops handle generation) = remove_generation s handle generation

abbrev pub calls : PushStore → List Call → PushStore
calls s [] = s
calls s (call ∷ rest) = calls (after s call) rest

-- The handle has an entry after each of the calls.
abbrev pub Kept : Handle → PushStore → List Call → Type 0
Kept handle s [] = Unit
Kept handle s (call ∷ rest) =
    (is_some (get handle (after s call).entries) ≡ true) × Kept handle (after s call) rest

-- The clock of a call, if it reads it, is at most `now`.
abbrev pub IsBy : ℕ → Call → Type 0
IsBy now (wakes handle at) = at ≤ now
IsBy now _ = Unit

take_wake_soon :
    (s : PushStore) (handle : Handle) (last now : ℕ)
    → last_sent_of (get handle s.entries) ≡ some last
    → now < last + collapse
    → take_wake s handle now ≡ (s, none)
unfolding take_wake
take_wake_soon s handle last now h soon = elim (Option-cases (get handle s.entries)) [
  | inl absent ↦ rw (absent, take_wake) refl
  | inr (e, x) ↦
      let stamped : e.last_sent ≡ some last = rw x at h in
      rw (x, take_wake) (rw stamped (ground arith))
]

last_sent-remove :
    (s : PushStore) (h handle : Handle) (last : ℕ)
    → last_sent_of (get handle s.entries) ≡ some last
    → is_some (get handle (remove h s.entries)) ≡ true
    → last_sent_of (get handle (remove h s.entries)) ≡ some last
last_sent-remove s h handle last e kept = elim (Bool-cases (beq h handle)) [
  | inl same ↦ absurd (absent (rw (get-remove h handle s.entries, same) at kept))
  | inr differ ↦ rw (get-remove h handle s.entries, differ) e
]
  where
    absent : false ≡ true → ⊥
    absent q = cc

last_sent-register :
    (s : PushStore) (h handle : Handle) (platform : Platform) (token : Bytes) (last : ℕ)
    → last_sent_of (get handle s.entries) ≡ some last
    → is_some (get handle (register s h platform token).entries) ≡ true
    → last_sent_of (get handle (register s h platform token).entries) ≡ some last
last_sent-register s h handle platform token last e kept = elim (Bool-cases (beq h handle)) [
  | inl same ↦
      rw (get-register s h platform token handle, same)
        (ap (λ k. last_sent_of (get k s.entries)) (beq→eq h handle same) ∙ e)
  | inr differ ↦
      let same_get : get handle (register s h platform token).entries
          ≡ get handle (evict h s.entries) =
        rw (get-register s h platform token handle, differ) refl in
      elim (Option-cases (get handle (evict h s.entries))) [
        | inl gone ↦ absurd (absent (rw (same_get, gone) at kept))
        | inr (entry, there) ↦
            ap last_sent_of (same_get ∙ there ∙ sym (get-evict h s.entries handle entry there)) ∙ e
      ]
]
  where
    absent : false ≡ true → ⊥
    absent q = cc

last_sent-take_wake :
    (s : PushStore) (h handle : Handle) (last at : ℕ)
    → last_sent_of (get handle s.entries) ≡ some last
    → at < last + collapse
    → last_sent_of (get handle (take_wake s h at).0.entries) ≡ some last
last_sent-take_wake s h handle last at e soon = elim (Bool-cases (beq h handle)) [
  | inl same ↦
      subst (λ k. last_sent_of (get handle (take_wake s k at).0.entries) ≡ some last)
        (sym (beq→eq h handle same))
        (ap (λ (o : PushStore × Option Delivery). last_sent_of (get handle ((o.0).entries)))
            (take_wake_soon s handle last at e soon)
          ∙ e)
  | inr differ ↦ elim (take_wake_outcomes s h at) [
    | inl q ↦ rw q e
    | inr (entry, x, q) ↦
        rw (q, get-insert h handle (record entry { last_sent = some at }) s.entries, differ) e
  ]
]

-- An entry that is there keeps the instant of its last wake, whatever is called within 30 seconds.
last_sent-after :
    (s : PushStore) (handle : Handle) (last now : ℕ) (call : Call)
    → last_sent_of (get handle s.entries) ≡ some last
    → now < last + collapse
    → IsBy now call
    → is_some (get handle (after s call).entries) ≡ true
    → last_sent_of (get handle (after s call).entries) ≡ some last
unfolding remove_generation
last_sent-after s handle last now (registers h platform token) e soon by kept =
    last_sent-register s h handle platform token last e kept
last_sent-after s handle last now (unregisters h) e soon by kept =
    last_sent-remove s h handle last e kept
last_sent-after s handle last now (wakes h at) e soon by kept =
    last_sent-take_wake s h handle last at e (omega (arith, by, soon))
last_sent-after s handle last now (drops h generation) e soon by kept =
    elim (Bool-cases (is_some_and (get h s.entries) (λ entry. entry.generation == generation))) [
      | inl gone ↦ rw gone (last_sent-remove s h handle last e (rw gone at kept))
      | inr other ↦ rw other e
    ]

last_sent-calls :
    (s : PushStore) (handle : Handle) (last now : ℕ) (between : List Call)
    → last_sent_of (get handle s.entries) ≡ some last
    → now < last + collapse
    → All (IsBy now) between
    → Kept handle s between
    → last_sent_of (get handle (calls s between).entries) ≡ some last
last_sent-calls s handle last now [] e soon by kept = e
last_sent-calls s handle last now (call ∷ rest) e soon (by, bys) (kept, kepts) =
    last_sent-calls (after s call) handle last now rest
      (last_sent-after s handle last now call e soon by kept) soon bys kepts

-- After a wake has been delivered for a handle, no other is within 30 seconds, whatever is called
-- of the store in between for this handle and others, on a clock that does not go back, as long as
-- the handle keeps an entry throughout. An entry that is removed, by an unregistration, an eviction
-- or a token that is gone, takes the instant of its last wake with it.
pub take_wake-collapse :
    (s t : PushStore) (handle : Handle) (at now : ℕ) (d : Delivery) (between : List Call)
    → take_wake s handle at ≡ (t, some d)
    → now < at + collapse
    → All (IsBy now) between
    → Kept handle t between
    → (take_wake (calls t between) handle now).1 ≡ none
take_wake-collapse s t handle at now d between sent soon by kept =
    rw
      (take_wake_soon (calls t between) handle at now
        (last_sent-calls t handle at now between stamp soon by kept) soon)
      refl
  where
    stamp : last_sent_of (get handle t.entries) ≡ some at
    stamp = elim (take_wake_outcomes s handle at) [
      | inl q ↦ absurd (nothing (sym q ∙ sent))
      | inr (e, x, q) ↦ stamped e (sym q ∙ sent)
    ]
      where
        nothing : ◌≡◌ {A = PushStore × Option Delivery} (s, none) (t, some d) → ⊥
        nothing p = cc

        stamped :
            (e : Entry)
            → ◌≡◌ {A = PushStore × Option Delivery}
                (
                  record s { entries = insert handle (record e { last_sent = some at }) s.entries },
                  some (e.platform, e.token, e.generation),
                )
                (t, some d)
            → last_sent_of (get handle t.entries) ≡ some at
        stamped e p =
            subst
              (λ (o : PushStore × Option Delivery).
                last_sent_of (get handle ((o.0).entries)) ≡ some at)
              p (rw (get-insert_self handle (record e { last_sent = some at }) s.entries) refl)

-- A provider's answer that comes after the Device has registered again removes nothing: the token
-- that it says is gone is of an older generation.
pub remove_generation-register :
    (s : PushStore) (handle : Handle) (e : Entry) (platform : Platform) (token : Bytes)
    → StoreInv s
    → get handle s.entries ≡ some e
    → remove_generation (register s handle platform token) handle e.generation
      ≡ register s handle platform token
unfolding remove_generation
remove_generation-register s handle e platform token inv x =
    let older_one : e.generation ≤ s.generation = inv.given handle e x in
    ground (arith, older_one, get-register s handle platform token handle, beq_refl handle)
