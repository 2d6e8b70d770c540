-- ===== src/Network/Streams.antt =====
-- A connection's reader gets what its writers wrote.
use Prim.Native.Nat.{zero}
use mathlib.Core.List.{append_assoc}
use evm_oracle.Network.Frames.{frame, read-write}
use evm_oracle.Network.Transport.{receive_loop, receive}
use evm_oracle.Network.Framing.{
  Codec, be32, Message, RoundTrips, FrameError, read_message, max_message_size, failed, got,
}
use evm_oracle.Base.{
  [], ◌∷◌, List, Bytes, ◌≡◌, length, ◌++◌, some, ℕ, ◌≤◌, arith, length-append, suc, ◌+◌, ap, refl,
}

-- Frames one after another
abbrev pub stream : List (Message × Bytes) → Bytes
stream [] = []
stream ((m, bytes) ∷ rest) = frame bytes ++ stream rest

-- Each message with its encoding, which is of at most 10 MB
abbrev pub AreEncoded : Codec → List (Message × Bytes) → Type 0
AreEncoded c [] = Unit
AreEncoded c ((m, bytes) ∷ rest) =
    ((c.encode m ≡ some bytes) × (length bytes ≤ max_message_size)) × AreEncoded c rest

abbrev pub messages : List (Message × Bytes) → List Message
messages [] = []
messages ((m, bytes) ∷ rest) = m ∷ messages rest

read-frame :
    (c : Codec) (m : Message) (bytes rest : Bytes)
    → RoundTrips c
    → c.encode m ≡ some bytes
    → length bytes ≤ max_message_size
    → read_message c (frame bytes ++ rest) ≡ got m rest
read-frame c m bytes rest trips e small =
    (read-write c (record { written = []; room = length bytes + 4 }) m bytes trips e small
        (omega arith)).2
      rest

receive_loop-stream :
    (c : Codec) (ms : List (Message × Bytes)) (rest : Bytes) (e : FrameError) (fuel : ℕ)
    → RoundTrips c
    → AreEncoded c ms
    → read_message c rest ≡ failed e
    → length ms ≤ fuel
    → receive_loop c fuel (stream ms ++ rest) ≡ messages ms
unfolding receive_loop
receive_loop-stream c [] rest e zero trips h bad enough = refl
receive_loop-stream c [] rest e (suc fuel) trips h bad enough = rw (bad, receive_loop)
receive_loop-stream c ((m, bytes) ∷ ms) rest e zero trips h bad enough = absurd (omega arith)
receive_loop-stream c ((m, bytes) ∷ ms) rest e (suc fuel) trips h bad enough =
    rw
      (
        append_assoc (frame bytes) (stream ms) rest,
        read-frame c m bytes (stream ms ++ rest) trips h.0.0 h.0.1,
        receive_loop,
      )
      (ap (◌∷◌ m) (receive_loop-stream c ms rest e fuel trips h.1 bad (omega arith)))

length-stream : (ms : List (Message × Bytes)) → length ms ≤ length (stream ms)
unfolding be32
length-stream [] = omega arith
length-stream ((m, bytes) ∷ ms) = omega (
  arith,
  length-append (frame bytes) (stream ms),
  length-append (be32 (length bytes)) bytes,
  length-stream ms,
)

-- A connection on which frames of encoded messages of at most 10 MB come in, and then something that is
-- no frame (such as its end), puts into the channel these messages, all of them, in their order, and
-- nothing else.
pub receive-stream :
    (c : Codec) (ms : List (Message × Bytes)) (rest : Bytes) (e : FrameError)
    → RoundTrips c
    → AreEncoded c ms
    → read_message c rest ≡ failed e
    → receive c (stream ms ++ rest) ≡ messages ms
unfolding receive
receive-stream c ms rest e trips h bad =
    receive_loop-stream c ms rest e (length (stream ms ++ rest)) trips h bad
      (omega (arith, length-append (stream ms) rest, length-stream ms))
