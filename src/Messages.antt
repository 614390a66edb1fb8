-- ===== src/Messages.antt =====
-- chitcpd-protobuf/protobuf-wrapper.c: messages on a socket of the host, each after its length. How a
-- message is packed and unpacked is generated code, and an argument, as are `send` and `recv`.
pub mod RoundTrip
mod Tests
use chitcp.Base.{
  ℕ, ◌+◌, ◌-◌, ◌*◌, ◌/◌, ◌%◌, ◌^◌, Bool, List, [], ◌∷◌, ◌++◌, Option, none, some, if◌then◌else◌,
  length, get_or, copy_at, take, ◌==◌,
}
use chitcp.Packets.{Sent, took, send_error, Received, got, recv_error}

-- A `size_t` in memory, on a little-endian host of 64 bits.
unfoldable pub size_bytes : ℕ → List ℕ
size_bytes n =
    n % 256
    ∷ n / 2 ^ 8 % 256
    ∷ n / 2 ^ 16 % 256
    ∷ n / 2 ^ 24 % 256
    ∷ n / 2 ^ 32 % 256
    ∷ n / 2 ^ 40 % 256
    ∷ n / 2 ^ 48 % 256
    ∷ n / 2 ^ 56 % 256
    ∷ []

unfoldable pub size_of : List ℕ → ℕ
size_of bs =
    get_or bs 0 0
    + 2 ^ 8 * get_or bs 1 0
    + 2 ^ 16 * get_or bs 2 0
    + 2 ^ 24 * get_or bs 3 0
    + 2 ^ 32 * get_or bs 4 0
    + 2 ^ 40 * get_or bs 5 0
    + 2 ^ 48 * get_or bs 6 0
    + 2 ^ 56 * get_or bs 7 0

-- `CHITCP_OK`; -1, the peer is gone; or -2. That memory runs out is left out.
pub data Sending : Type 0 where
  sent disconnected failed : Sending

pub data Receiving (M : Type 0) : Type 0 where
  received : M → Receiving M
  disconnected failed : Receiving M

-- A count as `int nbytes` keeps it: whether it reads as 0, and whether as -1.
unfoldable pub reads_zero : ℕ → Bool
reads_zero n = n % 2 ^ 32 == 0

unfoldable pub reads_error : ℕ → Bool
reads_error n = n % 2 ^ 32 == 2 ^ 32 - 1

-- `chitcpd_send_msg`; `reset` says that `errno` is `ECONNRESET` or `EPIPE` after an error.
pub conclude : {W : Type 0} → Bool → Sent × W → Sending × W
unfolding reads_error
conclude reset (took n, w) =
    if reads_error n
    then (if reset then Sending.disconnected else Sending.failed, w)
    else (Sending.sent, w)
conclude reset (send_error, w) = (if reset then Sending.disconnected else Sending.failed, w)

-- The bytes that `send` is given: `sizeof(size_t) + size` of them, in a `size_t`. Where that sum wraps, the
-- packing has been written past the end of what was allocated.
unfoldable pub outgoing : List ℕ → List ℕ
outgoing packed = take ((8 + length packed) % 2 ^ 64) (size_bytes (length packed) ++ packed)

unfoldable pub send_msg :
    {W M : Type 0} → (M → List ℕ) → (W → List ℕ → Sent × W) → Bool → W → M → Sending × W
unfolding conclude outgoing
send_msg pack send reset w msg = conclude reset (send w (outgoing (pack msg)))

-- The end of `chitcpd_recv_msg`: a message, unless it cannot be unpacked.
pub unpacked : {M : Type 0} → Option M → Receiving M
unpacked none = Receiving.failed
unpacked (some msg) = received msg

-- The bytes of the message; what `malloc` gave, for bytes that did not arrive, is a parameter.
pub with_body :
    {W M : Type 0} → (List ℕ → Option M) → (ℕ → List ℕ) → ℕ → Received × W → Receiving M × W
unfolding unpacked reads_zero reads_error
with_body unpack garbage size (recv_error, w) = (Receiving.failed, w)
with_body unpack garbage size (got bs, w) =
    if reads_zero (length bs)
    then (Receiving.disconnected, w)
    else if reads_error (length bs)
    then (Receiving.failed, w)
    else (unpacked (unpack (copy_at (garbage size) 0 bs)), w)

-- The length.
pub with_size :
    {W M : Type 0}
    → (List ℕ → Option M)
    → (ℕ → List ℕ)
    → (W → ℕ → Received × W)
    → Received × W
    → Receiving M × W
unfolding with_body reads_zero reads_error
with_size unpack garbage recv (recv_error, w) = (Receiving.failed, w)
with_size unpack garbage recv (got bs, w) =
    if reads_zero (length bs)
    then (Receiving.disconnected, w)
    else if reads_error (length bs)
    then (Receiving.failed, w)
    else let size = size_of (copy_at (garbage 8) 0 bs) in
      with_body unpack garbage size (recv w size)

unfoldable pub recv_msg :
    {W M : Type 0}
    → (List ℕ → Option M)
    → (ℕ → List ℕ)
    → (W → ℕ → Received × W)
    → W
    → Receiving M × W
unfolding with_size
recv_msg unpack garbage recv w = with_size unpack garbage recv (recv w 8)

-- `chitcpd_send_and_recv_msg`, on one world
pub then_recv : {W M : Type 0} → (W → Receiving M × W) → Sending × W → Receiving M × W
then_recv recv (Sending.sent, w) = recv w
then_recv recv (Sending.disconnected, w) = (Receiving.disconnected, w)
then_recv recv (Sending.failed, w) = (Receiving.failed, w)

pub send_and_recv_msg :
    {W M : Type 0}
    → (M → List ℕ)
    → (List ℕ → Option M)
    → (ℕ → List ℕ)
    → (W → List ℕ → Sent × W)
    → (W → ℕ → Received × W)
    → Bool
    → W
    → M
    → Receiving M × W
unfolding send_msg recv_msg then_recv
send_and_recv_msg pack unpack garbage send recv reset w msg =
    then_recv (recv_msg unpack garbage recv) (send_msg pack send reset w msg)
