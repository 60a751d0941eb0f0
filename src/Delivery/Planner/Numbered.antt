-- ===== src/Delivery/Planner/Numbered.antt =====
-- The operations of every plan.
use luna_agent.Prelude.{
  ℕ, suc, ◌+◌, ◌≤◌, ◌<◌, String, ◌≡◌, refl, sym, ap, subst, ◌⊎◌, inl, inr, Bool, true, false,
  Option, none, some, List, [], ◌∷◌, ◌++◌, arith, elem, ◌==◌, ==_iff, String_eq, if◌then◌else◌,
  is_empty, length, All, All-append, Bool-cases, if_elim,
}
use luna_agent.Conversation.Message.{MessagePart, OutboundMessage}
use luna_agent.Delivery.Planner.{
  DeliveryOperation, PlatformCapabilities, Planned, text_operation, appended, no_plan, or_one,
  supported, document_kinds, delivery_kind, or_text, over_limit, unsupported_operation, plan_media,
  plan_part, plan_parts, text_content, plan,
}

-- The indexes count from a number.
abbrev pub Numbered : ℕ → List DeliveryOperation → Type 0
Numbered n [] = Unit
Numbered n (op ∷ ops) = (op.index ≡ n) × Numbered (suc n) ops

-- A text, or a media kind that the platform sends.
abbrev pub CanSend : PlatformCapabilities → DeliveryOperation → Type 0
CanSend caps op =
    ((op.kind ≡ "text") × (is_empty op.artifact_id ≡ true)) ⊎ (supported caps op.kind ≡ some true)

-- The operations that send an artifact.
abbrev pub attachments : List DeliveryOperation → ℕ
attachments [] = 0
attachments (op ∷ ops) = (if is_empty op.artifact_id then 0 else 1) + attachments ops

Numbered-snoc :
    (n : ℕ) (ops : List DeliveryOperation) (op : DeliveryOperation)
    → Numbered n ops
    → op.index ≡ n + length ops
    → Numbered n (ops ++ op ∷ [])
Numbered-snoc n [] op h e = (omega (arith, e), tt)
Numbered-snoc n (x ∷ ops) op h e = (h.0, Numbered-snoc (suc n) ops op h.1 (omega (arith, e)))

attachments-append :
    (xs ys : List DeliveryOperation) → attachments (xs ++ ys) ≡ attachments xs + attachments ys
attachments-append [] ys = omega arith
attachments-append (x ∷ xs) ys = omega (arith, attachments-append xs ys)

-- What the loop keeps.
record Inv (caps : PlatformCapabilities) (s : Planned) : Type 0 where
  counted : Numbered 0 s.operations
  can_send : All (CanSend caps) s.operations
  seen : attachments s.operations ≤ s.attachment_count
  limit : (attachments s.operations ≤ caps.max_attachments) ⊎ (caps.max_attachments ≡ 0)

-- A text is appended, or an artifact within the limit.
Inv-appended :
    (caps : PlatformCapabilities) (s : Planned) (op : DeliveryOperation) (degraded : Bool)
    (count : ℕ)
    → Inv caps s
    → op.index ≡ length s.operations
    → CanSend caps op
    → s.attachment_count ≤ count
    → (is_empty op.artifact_id ≡ true)
      ⊎ ((s.attachment_count < count)
          × ((count ≤ caps.max_attachments) ⊎ (caps.max_attachments ≡ 0)))
    → Inv caps (appended s op degraded count)
Inv-appended caps s op degraded count inv e can later kind = record {
  counted = Numbered-snoc 0 s.operations op inv.counted (omega (arith, e));
  can_send = All-append (CanSend caps) s.operations (op ∷ []) inv.can_send (can, tt);
  seen = ground (arith, attachments-append s.operations (op ∷ []), inv.seen);
  limit = ground (arith, attachments-append s.operations (op ∷ []), inv.seen, inv.limit);
}

sends_file :
    (caps : PlatformCapabilities) → caps.file_send ≡ true → supported caps "file" ≡ some true
sends_file caps h = ap some h

document_sends :
    (caps : PlatformCapabilities) (kind : String)
    → elem kind document_kinds ≡ true
    → supported caps kind ≡ some true
    → caps.file_send ≡ true
document_sends caps kind h e = elim (Bool-cases ("document" == kind)) [
  | inl same ↦
      let as_document : supported caps "document" ≡ some true =
        subst (λ k. supported caps k ≡ some true) (sym ((==_iff "document" kind).0 same)) e in
      ground arith
  | inr other ↦
      let as_resource : supported caps "resource" ≡ some true =
        subst (λ k. supported caps k ≡ some true) (sym ((==_iff "resource" kind).0 (ground arith)))
          e in
      ground arith
]

delivery_kind_sends :
    (lower : String → String) (kind found : String) (caps : PlatformCapabilities)
    → delivery_kind lower kind caps ≡ some found
    → supported caps found ≡ some true
unfolding delivery_kind
delivery_kind_sends lower kind found caps e =
    let normalized = lower (or_text kind "file") in
    elim (Bool-cases (elem normalized document_kinds)) [
      | inl document ↦
          let is_file : (found ≡ "file") × (caps.file_send ≡ true) =
            ground (arith, e, document_sends caps normalized document) in
          subst (λ k. supported caps k ≡ some true) (sym is_file.0) (sends_file caps is_file.1)
      | inr media ↦
          let is_kind : ((found ≡ normalized) × (supported caps normalized ≡ some true))
              ⊎ ((found ≡ "file") × (caps.file_send ≡ true)) =
            ground (arith, e) in
          elim is_kind [
            | inl (same, sends) ↦ subst (λ k. supported caps k ≡ some true) (sym same) sends
            | inr (same, sends) ↦
                subst (λ k. supported caps k ≡ some true) (sym same) (sends_file caps sends)
          ]
    ]

module _ {M : Type 0} (caps : PlatformCapabilities) (s : Planned) (part : MessagePart M) where
  plan_media-Inv :
      (requested : String) (kind : Option String)
      → Inv caps s
      → over_limit caps (suc s.attachment_count) ≡ false
      → ((found : String) → kind ≡ some found → supported caps found ≡ some true)
      → Inv caps (plan_media s part requested kind)
  unfolding plan_media unsupported_operation
  plan_media-Inv requested none inv room sends =
      Inv-appended caps s _ _ _ inv refl (inl (refl, refl)) (omega arith) (inl refl)
  plan_media-Inv requested (some kind) inv room sends =
      Inv-appended caps s _ _ _ inv refl (inr (sends kind refl)) (omega arith)
        (inr (omega arith, ground arith))

  plan_part-Inv : (lower : String → String) → Inv caps s → Inv caps (plan_part lower caps s part)
  unfolding plan_part unsupported_operation
  plan_part-Inv lower inv =
      if_elim (Inv caps) (part.type == "text") _ _
        (λ text.
          if_elim (Inv caps) (is_empty part.text) _ _ (λ blank. inv)
            (λ full.
              Inv-appended caps s _ _ _ inv refl (inl (refl, refl)) (omega arith) (inl refl)))
        (λ media.
          if_elim (Inv caps) (is_empty part.artifact_id) _ _ (λ blank. inv)
            (λ full.
              if_elim (Inv caps) (over_limit caps (suc s.attachment_count)) _ _
                (λ over.
                  Inv-appended caps s _ _ _ inv refl (inl (refl, refl)) (omega arith) (inl refl))
                (λ room.
                  plan_media-Inv _ _ inv room
                    (λ found e. delivery_kind_sends lower _ found caps e))))

plan_parts-Inv :
    {M : Type 0} (lower : String → String) (caps : PlatformCapabilities) (s : Planned)
    (parts : List (MessagePart M))
    → Inv caps s
    → Inv caps (plan_parts lower caps s parts)
unfolding plan_parts
plan_parts-Inv lower caps s [] inv = inv
plan_parts-Inv lower caps s (part ∷ parts) inv =
    plan_parts-Inv lower caps (plan_part lower caps s part) parts
      (plan_part-Inv caps s part lower inv)

-- What a plan promises of its operations.
abbrev pub Sound : PlatformCapabilities → List DeliveryOperation → Type 0
Sound caps ops =
    (0 < length ops)
    × Numbered 0 ops
    × All (CanSend caps) ops
    × ((attachments ops ≤ caps.max_attachments) ⊎ (caps.max_attachments ≡ 0))

Sound-or_one :
    (caps : PlatformCapabilities) (s : Planned) (ops : List DeliveryOperation) (text : String)
    → ops ≡ s.operations
    → Inv caps s
    → Sound caps (or_one ops (text_operation 0 text ""))
Sound-or_one caps s [] text e inv =
    (omega arith, (refl, tt), (inl (refl, refl), tt), inl (omega arith))
Sound-or_one caps s (op ∷ ops) text e inv =
    subst
      (λ l.
        (0 < length (op ∷ ops))
        × Numbered 0 l
        × All (CanSend caps) l
        × ((attachments l ≤ caps.max_attachments) ⊎ (caps.max_attachments ≡ 0)))
      (sym e) (omega arith, inv.counted, inv.can_send, inv.limit)

-- The operations of a plan are not none, have the indexes 0, 1, 2 and so on, and each is a text
-- without artifact or of a kind that the platform supports; those with an artifact are at most as
-- many as the platform takes, unless it names no limit.
pub plan_sound :
    {M : Type 0} (lower : String → String) (message : OutboundMessage M)
    (caps : PlatformCapabilities)
    → (0 < length (plan lower message caps).operations)
      × Numbered 0 (plan lower message caps).operations
      × All (CanSend caps) (plan lower message caps).operations
      × ((attachments (plan lower message caps).operations ≤ caps.max_attachments)
          ⊎ (caps.max_attachments ≡ 0))
unfolding plan
plan_sound lower message caps =
    let s = plan_parts lower caps no_plan message.parts in
    Sound-or_one caps s s.operations (text_content message.parts) refl (
      plan_parts-Inv lower caps no_plan message.parts
        (record { counted = tt; can_send = tt; seen = omega arith; limit = inl (omega arith) }))
