-- ===== src/Hub/Push/Store.antt =====
-- The token store of routes/push.rs: its capacity and its generations.
use herdr_mobile.Base.{
  Bool-cases, Bytes, ap, arith, beq, beq→eq, if◌then◌else◌, inl, inr, length, none, refl, some, sym,
  ◌+◌, ◌∙◌, ◌≡◌, ◌≤◌, ◌⊎◌,
}
use herdr_mobile.Base.AssocMap.{
  get, Distinct, get-insert, insert-Distinct, length-insert-le, length-insert_old,
}
use herdr_mobile.Hub.Session.{Handle}
use herdr_mobile.Hub.Push.Evict.{
  oldest-le, oldest-get, get-evict, evict-Distinct, length-evict, evict_drops,
}
use herdr_mobile.Hub.Push.{capacity, Platform, Entry, PushStore, last_sent_of, evict, register}

-- What the store keeps: one entry for a handle, at most 4096, with generations that the store has
-- given out, and that no two handles share.
pub record StoreInv (s : PushStore) : Type 0 where
  pub distinct : Distinct s.entries
  pub capped : length s.entries ≤ capacity
  pub given : (j : Handle) (e : Entry) → get j s.entries ≡ some e → e.generation ≤ s.generation
  pub unshared :
      (i j : Handle) (e f : Entry)
      → get i s.entries ≡ some e
      → get j s.entries ≡ some f
      → e.generation ≡ f.generation
      → i ≡ j

abbrev pub new_entry : PushStore → Handle → Platform → Bytes → Entry
new_entry s handle platform token = record {
  platform = platform;
  token = token;
  generation = s.generation + 1;
  last_sent = last_sent_of (get handle s.entries);
}

module _ (s : PushStore) (handle : Handle) (platform : Platform) (token : Bytes) where
  pub get-register :
      (j : Handle)
      → get j (register s handle platform token).entries ≡ (
          if beq handle j
          then some (new_entry s handle platform token)
          else get j (evict handle s.entries))
  unfolding register
  get-register j = get-insert handle j (new_entry s handle platform token) (evict handle s.entries)

  -- An entry after the registration is the new one, or was there before.
  register_source :
      (j : Handle) (e : Entry)
      → get j (register s handle platform token).entries ≡ some e
      → ((handle ≡ j) × (e.generation ≡ s.generation + 1)) ⊎ (get j s.entries ≡ some e)
  register_source j e h = elim (Bool-cases (beq handle j)) [
    | inl same ↦ inl (beq→eq handle j same, fresh (rw same at (rw (get-register j) at h)))
    | inr differ ↦ inr (get-evict handle s.entries j e (rw differ at (rw (get-register j) at h)))
  ]
    where
      fresh : some (new_entry s handle platform token) ≡ some e → e.generation ≡ s.generation + 1
      fresh q = ground (arith, q)

  register_capped : StoreInv s → length (register s handle platform token).entries ≤ capacity
  unfolding register
  register_capped inv =
      let new = new_entry s handle platform token in
      let kept = evict handle s.entries in
      elim (length-evict handle s.entries inv.distinct inv.capped) [
        | inl room ↦ omega (arith, length-insert-le handle new kept)
        | inr (e, x, c) ↦ omega (arith, length-insert_old handle new e kept x)
      ]

  generation-register : (register s handle platform token).generation ≡ s.generation + 1
  unfolding register
  generation-register = refl

  -- A registration keeps the store within 4096 entries, with one for a handle, each of a generation
  -- of its own that the store has given out.
  pub register-StoreInv : StoreInv s → StoreInv (register s handle platform token)
  register-StoreInv inv = record {
    distinct = distinct_after;
    capped = register_capped inv;
    given = λ j e h. rw generation-register (elim (register_source j e h) [
      | inl (_, g) ↦ omega arith
      | inr old ↦ omega (arith, inv.given j e old)
    ]);
    unshared = λ i j e f h k g. elim (register_source i e h) [
      | inl (at_i, ge) ↦ elim (register_source j f k) [
        | inl (at_j, gf) ↦ sym at_i ∙ at_j
        | inr old ↦ absurd (omega (arith, inv.given j f old))
      ]
      | inr old_e ↦ elim (register_source j f k) [
        | inl (at_j, gf) ↦ absurd (omega (arith, inv.given i e old_e))
        | inr old_f ↦ inv.unshared i j e f old_e old_f g
      ]
    ];
  }
    where
      distinct_after : Distinct (register s handle platform token).entries
      distinct_after =
          unfold register in
          insert-Distinct handle (new_entry s handle platform token) (evict handle s.entries)
            (evict-Distinct handle s.entries inv.distinct)

  -- If a registration drops the entry of a handle, the store was full, the handle that registers
  -- had no entry, and no entry was older than the one dropped.
  pub register_evicts_oldest :
      (i j : Handle) (e f : Entry)
      → StoreInv s
      → get j s.entries ≡ some e
      → get j (register s handle platform token).entries ≡ none
      → get i s.entries ≡ some f
      → (length s.entries ≡ capacity)
        × (get handle s.entries ≡ none)
        × (e.generation ≤ f.generation)
  register_evicts_oldest i j e f inv x dropped y =
      let (full, absent, g, o) =
        evict_drops handle s.entries j e x (gone (rw (get-register j) at dropped)) in
      let (e', x', same) = oldest-get s.entries j g inv.distinct o in
      let one : e ≡ e' = same_entry x x' in
      (
        full,
        absent,
        omega (arith, ap (λ (a : Entry). a.generation) one, oldest-le s.entries j g i f o y),
      )
    where
      same_entry : {e' : Entry} → get j s.entries ≡ some e → get j s.entries ≡ some e' → e ≡ e'
      same_entry p q = cc

      gone :
          (if beq handle j
              then some (new_entry s handle platform token)
              else get j (evict handle s.entries))
            ≡ none
          → get j (evict handle s.entries) ≡ none
      gone q = ground (arith, q)
