-- ===== src/Frame.antt =====
-- How the receiving threads of client.cpp, network.cpp and mesh.cpp read one message from a stream
-- socket: a header of four bytes with the length of the body, then the body into a new buffer of
-- that length. The counts are what `read` returns. `read` fills the front of the buffer; behind it
-- the buffer holds what was in memory before. The protocol buffer runtime makes a message of the
-- whole buffer.
use blockchain_raft.Base.{
  ◌≡◌, refl, ◌⊎◌, inl, inr, ◌↔◌, ◌≤ℤ◌, arith, true, false, ℕ, List, [], ◌∷◌, ◌++◌, if◌then◌else◌, ℤ,
  pos, leb_ℤ, ltb_ℤ, Bool,
}

pub record Frame (A : Type 0) : Type 0 where
  pub header_count : ℤ
  pub msg_bytes : ℕ
  pub body_count : ℤ
  pub received : List ℕ
  pub leftover : List ℕ
  pub parse : List ℕ → A

-- `ParseFromArray(msg, msg_bytes)`
abbrev pub body : {A : Type 0} → Frame A → A
body f = f.parse (f.received ++ f.leftover)

-- What one round makes of it: the connection is lost, or the round is given up, or there is a
-- message.
pub data Read (A : Type 0) : Type 0 where
  lost broken : Read A
  whole : A → Read A

-- sizeof(msg_bytes)
abbrev pub header_bytes : ℕ
header_bytes = 4

-- A count below `limit` is a broken body.
unfoldable pub read_frame : {A : Type 0} → ℕ → Frame A → Read A
read_frame limit f =
    if leb_ℤ f.header_count (pos 0)
    then lost
    else (if ltb_ℤ f.header_count (pos header_bytes)
        then broken
        else (if leb_ℤ f.body_count (pos 0)
            then lost
            else (if ltb_ℤ f.body_count (pos limit) then broken else whole (body f))))

-- The client and the replica's connection compare with the length of the body.
abbrev pub read_body : {A : Type 0} → Frame A → Read A
read_body f = read_frame f.msg_bytes f

-- The server's connection to a client and the mesh compare with the size of the header.
abbrev pub read_loose : {A : Type 0} → Frame A → Read A
read_loose f = read_frame header_bytes f

pub Read-cases : {A : Type 0} (r : Read A) → (r ≡ lost) ⊎ ((r ≡ broken) ⊎ ((m : A) × (r ≡ whole m)))
Read-cases lost = inl refl
Read-cases broken = inr (inl refl)
Read-cases (whole m) = inr (inr (m, refl))

-- The messages that are read whole before the connection is lost.
abbrev pub accepted : {A : Type 0} → List (Read A) → List A
accepted [] = []
accepted (lost ∷ fs) = []
accepted (broken ∷ fs) = accepted fs
accepted (whole m ∷ fs) = m ∷ accepted fs

abbrev pub is_lost : {A : Type 0} → List (Read A) → Bool
is_lost [] = false
is_lost (lost ∷ fs) = true
is_lost (broken ∷ fs) = is_lost fs
is_lost (whole m ∷ fs) = is_lost fs

-- A message is passed on exactly if its header came whole and the count of its body is positive
-- and reaches the limit; it is what the whole buffer is parsed as.
pub read_frame-whole :
    {A : Type 0} (limit : ℕ) (f : Frame A) (m : A)
    → (read_frame limit f ≡ whole m) ↔ (
        (pos header_bytes ≤ℤ f.header_count)
        × (pos 1 ≤ℤ f.body_count)
        × (pos limit ≤ℤ f.body_count)
        × (body f ≡ m))
unfolding read_frame
read_frame-whole limit f m = (λ e. ground (arith, e), λ h. ground (arith, h))
