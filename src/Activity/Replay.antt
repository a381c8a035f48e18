-- ===== src/Activity/Replay.antt =====
-- What the messages that a bridge accepts have in common, and how they follow each other.
use devhatch.ConstantTime.{constant_time_eq, constant_time_eq_iff}
use devhatch.Activity.Message.{
  Envelope, Descriptor, Sequences, Report, valid_report, rejected, set_sequence, validate_decoded,
  validate_envelope, protocol_version, max_message_bytes,
}
use devhatch.Prelude.{
  ℕ, ◌≤◌, ◌<◌, ◌≡◌, refl, subst, ◌⊎◌, inl, inr, Bool, true, false, not, ◌||◌, Option, none, some,
  List, [], ◌∷◌, arith, if◌then◌else◌, ltb, Bool-cases, Option-cases, all, All, length, ◌==◌,
  nat_eq, string_eq, is_empty, option_eq,
}

-- What a sender without the descriptor cannot make, and what the rest of the program relies on.
pub record IsAuthentic (d : Descriptor) (e : Envelope) : Type 0 where
  pub version : e.version ≡ 1
  pub token : e.token ≡ d.token
  pub session_id : e.session_id ≡ d.session_id
  pub agent_id : e.agent_id ≡ d.agent_id
  pub instance_id : (e.instance_id ≡ d.instance_id) ⊎ (e.instance_id ≡ d.hook_instance)
  pub positive : 0 < e.sequence
  pub some_reports : 0 < length e.reports
  pub few_reports : length e.reports ≤ 2
  pub valid : all valid_report e.reports ≡ true

||_false : (a b : Bool) → (a || b) ≡ false → (a ≡ false) × (b ≡ false)
||_false a b h = ground arith

||_true : (a b : Bool) → (a || b) ≡ true → (a ≡ true) ⊎ (b ≡ true)
||_true a b h = ground arith

pos_of_ne_zero : (n : ℕ) → (n == 0) ≡ false → 0 < n
pos_of_ne_zero n h = ground arith

le_of_not_lt : (m n : ℕ) → ltb m n ≡ false → n ≤ m
le_of_not_lt m n h = ground arith

true_of_not : (a : Bool) → not a ≡ false → a ≡ true
true_of_not a h = ground arith

some_of_not_empty : (xs : List Report) → is_empty xs ≡ false → 0 < length xs
some_of_not_empty [] h = cc
some_of_not_empty (x ∷ xs) h = omega arith

empty_of_some : (xs : List Report) → 0 < length xs → is_empty xs ≡ false
empty_of_some [] h = absurd (omega arith)
empty_of_some (x ∷ xs) h = refl

pub rejected-false : (e : Envelope) (d : Descriptor) → rejected e d ≡ false → IsAuthentic d e
unfolding rejected
rejected-false e d h =
    let (h₁, valid) = ||_false _ _ h in
    let (h₂, few_reports) = ||_false _ _ h₁ in
    let (h₃, some_reports) = ||_false _ _ h₂ in
    let (h₄, sequence) = ||_false _ _ h₃ in
    let (h₅, instance_id) = ||_false _ _ h₄ in
    let (h₆, agent_id) = ||_false _ _ h₅ in
    let (h₇, session_id) = ||_false _ _ h₆ in
    let (h₈, token) = ||_false _ _ h₇ in
    let (version, _) = ||_false _ (not (d.version == protocol_version)) h₈ in
    record {
      version = (nat_eq.same_iff e.version 1).0 (true_of_not _ version);
      token = (constant_time_eq_iff e.token d.token).0 (true_of_not _ token);
      session_id = (string_eq.same_iff e.session_id d.session_id).0 (true_of_not _ session_id);
      agent_id = (string_eq.same_iff e.agent_id d.agent_id).0 (true_of_not _ agent_id);
      instance_id = elim (||_true _ _ (true_of_not _ instance_id)) [
        | inl own ↦ inl ((string_eq.same_iff e.instance_id d.instance_id).0 own)
        | inr hook ↦ inr ((string_eq.same_iff e.instance_id d.hook_instance).0 hook)
      ];
      positive = pos_of_ne_zero e.sequence sequence;
      some_reports = some_of_not_empty e.reports some_reports;
      few_reports = le_of_not_lt 2 (length e.reports) few_reports;
      valid = true_of_not _ valid;
    }

-- The authentic envelopes are all let through, to a descriptor of the same protocol version.
pub rejected_of_IsAuthentic :
    (e : Envelope) (d : Descriptor) → d.version ≡ 1 → IsAuthentic d e → rejected e d ≡ false
unfolding rejected
rejected_of_IsAuthentic e d v a =
    let token : constant_time_eq e.token d.token ≡ true =
      (constant_time_eq_iff e.token d.token).1 a.token in
    let session_id = (string_eq.same_iff e.session_id d.session_id).1 a.session_id in
    let agent_id = (string_eq.same_iff e.agent_id d.agent_id).1 a.agent_id in
    ground (
      arith,
      string_eq.same_iff e.instance_id d.instance_id,
      string_eq.same_iff e.instance_id d.hook_instance,
      empty_of_some e.reports a.some_reports,
    )

some_of_if {ℓ} :
    {A : Type ℓ} (b : Bool) (o : Option A) {a : A} → (if b then none else o) ≡ some a → o ≡ some a
some_of_if true o h = cc
some_of_if false o h = h

-- The envelopes that a sequence of messages gets accepted, oldest first.
module _ (decode : List ℕ → Option Envelope) (d : Descriptor) where
  unfoldable pub accepted : Sequences → List (List ℕ) → List Envelope
  accepted sequences [] = []
  accepted sequences (bytes ∷ messages) = elim (validate_envelope decode bytes d sequences) [
    | none ↦ accepted sequences messages
    | some (e, sequences') ↦ e ∷ accepted sequences' messages
  ]

  validate_decoded-some :
      (f : Envelope) (sequences : Sequences) (e : Envelope) (sequences' : Sequences)
      → validate_decoded f d sequences ≡ some (e, sequences')
      → (f ≡ e)
        × (rejected f d ≡ false)
        × (sequences f.instance_id < f.sequence)
        × (sequences' ≡ set_sequence sequences f.instance_id f.sequence)
  unfolding validate_decoded
  validate_decoded-some f sequences e sequences' h = ground arith

  decoded-some :
      (o : Option Envelope) (sequences : Sequences) (e : Envelope) (sequences' : Sequences)
      → elim o [ none ↦ none | some f ↦ validate_decoded f d sequences ] ≡ some (e, sequences')
      → IsAuthentic d e
        × (sequences e.instance_id < e.sequence)
        × (sequences' ≡ set_sequence sequences e.instance_id e.sequence)
  decoded-some none sequences e sequences' h = cc
  decoded-some (some f) sequences e sequences' h =
      let (same, ok, newer, after) = validate_decoded-some f sequences e sequences' h in
      rw (← same) (rejected-false f d ok, newer, after)

  -- An accepted message is authentic and newer than the last one of its instance.
  validate_envelope-some :
      (bytes : List ℕ) (sequences : Sequences) (e : Envelope) (sequences' : Sequences)
      → validate_envelope decode bytes d sequences ≡ some (e, sequences')
      → IsAuthentic d e
        × (sequences e.instance_id < e.sequence)
        × (sequences' ≡ set_sequence sequences e.instance_id e.sequence)
  unfolding validate_envelope
  validate_envelope-some bytes sequences e sequences' h =
      decoded-some (decode bytes) sequences e sequences'
        (some_of_if (is_empty bytes || ltb max_message_bytes (length bytes)) _ h)

  -- Newer than what the map has for its instance.
  abbrev IsNewer : Sequences → Envelope → Type 0
  IsNewer sequences e = sequences e.instance_id < e.sequence

  -- Each envelope is authentic, and newer than all before it of its instance.
  abbrev pub Advances : List Envelope → Type 0
  Advances [] = Unit
  Advances (e ∷ es) =
      IsAuthentic d e
      × All (λ f. e.instance_id ≡ f.instance_id → e.sequence < f.sequence) es
      × Advances es

  -- What the map has only grows.
  IsNewer-after :
      (e f : Envelope) (sequences : Sequences)
      → IsNewer sequences e
      → IsNewer (set_sequence sequences e.instance_id e.sequence) f
      → IsNewer sequences f × (e.instance_id ≡ f.instance_id → e.sequence < f.sequence)
  IsNewer-after e f sequences n m = elim (Bool-cases (e.instance_id == f.instance_id)) [
    | inl same ↦
        let e_f : e.instance_id ≡ f.instance_id =
          (string_eq.same_iff e.instance_id f.instance_id).0 same in
        let m' : e.sequence < f.sequence =
          subst (λ b. (if b then e.sequence else sequences f.instance_id) < f.sequence) same m in
        (subst (λ i. sequences i < f.sequence) e_f (omega arith), λ _. m')
    | inr other ↦ (
      subst (λ b. (if b then e.sequence else sequences f.instance_id) < f.sequence) other m,
      λ e_f. cc (other, (string_eq.same_iff e.instance_id f.instance_id).1 e_f),
    )
  ]

  All-IsNewer_after :
      (e : Envelope) (fs : List Envelope) (sequences : Sequences)
      → IsNewer sequences e
      → All (IsNewer (set_sequence sequences e.instance_id e.sequence)) fs
      → All (IsNewer sequences) fs
        × All (λ f. e.instance_id ≡ f.instance_id → e.sequence < f.sequence) fs
  All-IsNewer_after e [] sequences n ms = (tt, tt)
  All-IsNewer_after e (f ∷ fs) sequences n ms =
      let (a, b) = IsNewer-after e f sequences n ms.0 in
      let (ns, after) = All-IsNewer_after e fs sequences n ms.1 in ((a, ns), (b, after))

  accepted-IsNewer :
      (sequences : Sequences) (messages : List (List ℕ))
      → All (IsNewer sequences) (accepted sequences messages)
        × Advances (accepted sequences messages)
  unfolding accepted
  accepted-IsNewer sequences [] = (tt, tt)
  accepted-IsNewer sequences (bytes ∷ messages) =
      elim (Option-cases (validate_envelope decode bytes d sequences)) [
        | inl refused ↦ rw (refused, accepted) (accepted-IsNewer sequences messages)
        | inr ((e, sequences'), ok) ↦
            let (authentic, newer, after) =
              validate_envelope-some bytes sequences e sequences' ok in
            let (later, advances) = accepted-IsNewer sequences' messages in
            let (ns, in_order) =
              All-IsNewer_after e (accepted sequences' messages) sequences newer
                (subst (λ t. All (IsNewer t) (accepted sequences' messages)) after later) in
            rw (ok, accepted) ((newer, ns), (authentic, in_order, advances))
      ]

  -- Whatever messages arrive: every envelope that is accepted is of the protocol version, carries
  -- the token, the session, the agent and an instance of the descriptor, and one or two valid
  -- reports; and its sequence number is greater than those of all accepted before it from the same
  -- instance, so that no message is accepted twice.
  pub accepted-Advances :
      (messages : List (List ℕ)) → Advances (accepted (λ instance_id. 0) messages)
  accepted-Advances messages = (accepted-IsNewer (λ instance_id. 0) messages).1
