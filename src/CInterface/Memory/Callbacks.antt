-- ===== src/CInterface/Memory/Callbacks.antt =====
-- What the C callbacks are called with, and that every block is freed again.
use mathlib.Core.Option
use libgossip.Base.{
  ℕ, ◌+◌, ◌-◌, ◌≡◌, refl, sym, ap, ◌∙◌, ◌⊎◌, inl, inr, Bool, true, false, Option, none, some, List,
  [], ◌∷◌, map, arith, length, ltb, Bool-cases, if_true, if_false,
}
use libgossip.CInterface.{
  to_cpp_node_id, to_c_node_id, to_c_node_view, read_entries, to_cpp_message, CMessage,
}
use libgossip.CInterface.Memory.{
  fill_entries, pass_message, malloc, release, c_message, to_c_message, free_c_message,
  send_callback_wrapper, event_callback_wrapper, on_effect, Memory, Wrapper, CCall,
}
use libgossip.CInterface.RoundTrip.{IsMessage, take_all, clipped_message, to_cpp_message-c_message}
use libgossip.Core.State.{Effect}
use libgossip.Node.{NodeView, GossipMessage}
use libgossip.Node.Codes.{status_code}
use libgossip.Node.Codes.Laws.{type_of_code-type_code}

empty-of_length : (ns : List NodeView) → ltb 0 (length ns) ≡ false → ns ≡ []
empty-of_length [] h = refl
empty-of_length (n ∷ ns) h = absurd (ground (arith, h))

pub without_entries :
    (m : GossipMessage)
    → m.entries ≡ []
    → IsMessage m
    → to_cpp_message (c_message m none 0) ≡ some (clipped_message m)
unfolding to_cpp_message read_entries to_cpp_node_id to_c_node_id
without_entries m e (sized, type, nodes) =
    rw (e, take_all m.sender sized, type_of_code-type_code m.type type) refl

-- The message that C sees of `m` reads back as `m` with its nodes clipped.
abbrev pub Shows : GossipMessage → CMessage → Type 0
Shows m c = (to_cpp_message c ≡ some (clipped_message m)) × (c.entries_count ≡ length m.entries)

to_c_message_cases :
    (grants : ℕ → Bool) (m : GossipMessage) (mem : Memory)
    → ((ltb 0 (length m.entries) ≡ false)
        × (to_c_message grants m mem ≡ some (c_message m none 0, mem)))
      ⊎ ((ltb 0 (length m.entries) ≡ true)
          × (grants mem.asked ≡ false)
          × (to_c_message grants m mem ≡ none))
      ⊎ ((ltb 0 (length m.entries) ≡ true)
          × (to_c_message grants m mem
              ≡ some (
                c_message m (some (map to_c_node_view m.entries)) (length m.entries),
                record { asked = mem.asked + 1; live = mem.live + 1 },
              )))
unfolding to_c_message malloc fill_entries
to_c_message_cases grants m mem = elim (Bool-cases (ltb 0 (length m.entries))) [
  | inr few ↦ inl (few, if_false _ _ few)
  | inl many ↦ elim (Bool-cases (grants mem.asked)) [
    | inl granted ↦
        inr (inr (many, if_true _ _ many ∙ ap (λ r. fill_entries r m) (if_true _ _ granted)))
    | inr refused ↦
        inr (
          inl (many, refused, if_true _ _ many ∙ ap (λ r. fill_entries r m) (if_false _ _ refused)))
  ]
]

-- With a callback set, one call of it that shows the message, and the same blocks live after it; or
-- malloc has refused.
sent_cases :
    (grants : ℕ → Bool) (m : GossipMessage) (target : NodeView) (w : Wrapper) (mem : Memory)
    → w.send_callback ≡ true
    → ((grants mem.asked ≡ false) × (send_callback_wrapper grants m target w mem ≡ none))
      ⊎ ((c : CMessage) × (mem' : Memory) × (send_callback_wrapper grants m target w mem
            ≡ some (CCall.send_called c (to_c_node_view target) ∷ [], mem'))
          × (mem'.live ≡ mem.live)
          × (((m.entries ≡ []) × (c ≡ c_message m none 0))
              ⊎ (c ≡ c_message m (some (map to_c_node_view m.entries)) (length m.entries))))
unfolding send_callback_wrapper pass_message free_c_message release
sent_cases grants m target w mem set =
    let open_up = λ (o : Option (CMessage × Memory)) (e : to_c_message grants m mem ≡ o).
      if_true (Option.map (pass_message target) (to_c_message grants m mem)) (some ([], mem)) set
      ∙ ap (Option.map (pass_message target)) e in
    elim (to_c_message_cases grants m mem) [
      | inl (few, e) ↦
          inr
            (c_message m none 0, mem, open_up _ e, refl, inl (empty-of_length m.entries few, refl))
      | inr (inl (_, refused, e)) ↦ inl (refused, open_up _ e)
      | inr (inr (many, e)) ↦ inr (
        c_message m (some (map to_c_node_view m.entries)) (length m.entries),
        record { asked = mem.asked + 1; live = mem.live + 1 - 1 },
        open_up _ e,
        omega arith,
        inr refl,
      )
    ]

-- With a send callback and a malloc that grants the request, sending a message whose ids have
-- sixteen bytes and whose enumerators are in their ranges calls the callback exactly once, with the
-- target and with a C message that has as many entries and reads back as the message with its nodes
-- clipped as on the way to C and back; the number of live blocks is then what it was.
send_callback_wrapper_lem :
    (grants : ℕ → Bool) (m : GossipMessage) (target : NodeView) (w : Wrapper) (mem : Memory)
    → IsMessage m
    → w.send_callback ≡ true
    → grants mem.asked ≡ true
    → (c : CMessage) × (mem' : Memory) × (send_callback_wrapper grants m target w mem
        ≡ some (CCall.send_called c (to_c_node_view target) ∷ [], mem'))
      × Shows m c
      × (mem'.live ≡ mem.live)
send_callback_wrapper_lem grants m target w mem h set granted =
    elim (sent_cases grants m target w mem set) [
      | inl (refused, _) ↦ absurd (ground (arith, sym granted ∙ refused))
      | inr (c, mem', e, live, inl (few, made)) ↦
          (c, mem', e, rw made (without_entries m few h, sym (ap length few)), live)
      | inr (c, mem', e, live, inr made) ↦
          (c, mem', e, rw made (to_cpp_message-c_message m h, refl), live)
    ]

-- Whatever gossip_core sends or reports to C, as many blocks are live afterwards as before, except
-- that the message is written through a null pointer, which happens only when malloc refuses the
-- request.
pub on_effect_releases :
    (grants : ℕ → Bool) (e : Effect) (w : Wrapper) (mem : Memory)
    → ((on_effect grants e w mem ≡ none) × (grants mem.asked ≡ false))
      ⊎ ((calls : List CCall) × (mem' : Memory) × (on_effect grants e w mem ≡ some (calls, mem'))
          × (mem'.live ≡ mem.live))
unfolding on_effect send_callback_wrapper event_callback_wrapper
on_effect_releases grants (Effect.sent m target) w mem = elim (Bool-cases w.send_callback) [
  | inr unset ↦ inr ([], mem, if_false _ _ unset, refl)
  | inl set ↦ elim (sent_cases grants m target w mem set) [
    | inl (refused, e) ↦ inl (e, refused)
    | inr (c, mem', e, live, _) ↦
        inr (CCall.send_called c (to_c_node_view target) ∷ [], mem', e, live)
  ]
]
on_effect_releases grants (Effect.event node old_status) w mem =
    elim (Bool-cases w.event_callback) [
      | inr unset ↦ inr ([], mem, if_false _ _ unset, refl)
      | inl set ↦ inr (
        CCall.event_called (to_c_node_view node) (status_code old_status) ∷ [],
        mem,
        if_true _ _ set,
        refl,
      )
    ]
