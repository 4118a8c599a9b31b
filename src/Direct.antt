-- ===== src/Direct.antt =====
-- The send callbacks of the examples: a node's core calls them while it holds its mutex, and they
-- call handle_message of another node of the same process at once. This module plays such calls, for
-- any state `C` of the process.
pub mod Ends
pub mod Greetings
use libgossip.Base.{
  ℕ, zero, suc, Bool, false, ◌||◌, Option, none, some, List, [], ◌∷◌, int_discrete, ℤ, ◌==◌,
  if◌then◌else◌, holds,
}
use libgossip.Core.State.{Effect, Core}

-- How a call goes on: it returns; it waits for a mutex that its own thread holds, and so never
-- returns; it reads through a null pointer; or the bound on nested calls is reached.
pub data Course (C : Type 0) : Type 0 where
  returns : C → Course C
  blocks crashes exhausts : Course C

infixl 5 ◌then◌
abbrev pub ◌then◌ : {C : Type 0} → Course C → (C → Course C) → Course C
Course.returns c then f = f c
Course.blocks then f = Course.blocks
Course.crashes then f = Course.crashes
Course.exhausts then f = Course.exhausts

-- The mutex of a core is not recursive: it is held from the start of an operation to its end.
unfoldable pub is_held : ℕ → List ℕ → Bool
is_held j [] = false
is_held j (i ∷ held) = j == i || is_held j held

-- `g_node_registry.find(port)`
unfoldable pub find_port : ℤ → List (ℤ × ℕ) → Option ℕ
find_port port [] = none
find_port port ((p, i) ∷ rest) =
    let further = find_port port rest in if holds (int_discrete p port) then some i else further

-- The calls of the callbacks of an operation, the latest first, while the mutexes of the nodes in the
-- list are held.
abbrev pub Nested : Type 0 → Type 0
Nested C = List ℕ → List Effect → C → Course C

-- What one call does, from what the calls of the operations that it makes do.
abbrev pub Performer : Type 0 → Type 0
Performer C = Nested C → List ℕ → Effect → C → Course C

-- The calls of a list in the order in which they are made; `fuel` bounds how deep they nest.
unfoldable pub play : {C : Type 0} → Performer C → ℕ → Nested C
play callbacks fuel held [] c = Course.returns c
play callbacks zero held (e ∷ earlier) c =
    play callbacks zero held earlier c then callbacks (λ h es d. Course.exhausts) held e
play callbacks (suc fuel) held (e ∷ earlier) c =
    play callbacks (suc fuel) held earlier c then callbacks (play callbacks fuel) held e

-- A message is answered by a pong at most, and a pong by nothing.
abbrev pub depth : ℕ
depth = 2

-- A core at the start of an operation whose calls are to be recorded.
unfoldable pub unheld_trace : Core → Core
unheld_trace s = record s { trace = [] }
