-- ===== src/Netwrap.antt =====
-- common/netwrap.c: the functions behind `net_fns` that send, receive and accept, over TCP and TLS.
-- What the system's and the TLS library's functions answer is an argument.
use lwmsg.Base.{ℕ, zero, suc, ◌≤◌, ◌<◌, ◌≡◌, ◌⊎◌, inl, inr, refl, List, [], ◌∷◌, arith, length}

-- The values of errno that the code names.
pub data Errno : Type 0 where
  eagain econnreset epipe other_errno : Errno

-- What SSL_get_error answers.
pub data SslError : Type 0 where
  ssl_error_zero_return ssl_error_syscall ssl_error_want_read ssl_error_want_write ssl_error_other :
      SslError

-- recv, with the bytes that it wrote; and SSL_read, where they are more than none.
pub data RecvCall : Type 0 where
  recv_failed : Errno → RecvCall
  received : List ℕ → RecvCall

pub data SslRead : Type 0 where
  read_failed : SslError → SslRead
  read_bytes : List ℕ → SslRead

-- send and SSL_write, with the count of the bytes.
pub data SendCall : Type 0 where
  send_failed : Errno → SendCall
  written : ℕ → SendCall

pub data SslWrite : Type 0 where
  write_failed : SslError → SslWrite
  wrote : ℕ → SslWrite

-- What recv_fn and send_fn answer: ERROR, EBLOCK, or the data.
pub data Recv : Type 0 where
  recv_error recv_block : Recv
  got : List ℕ → Recv

pub data Sent : Type 0 where
  send_error send_block : Sent
  sent : ℕ → Sent

unfoldable pub recv_tcp : RecvCall → Recv
recv_tcp (recv_failed err) = elim err [
  | eagain ↦ recv_block
  | econnreset ↦ recv_error
  | epipe ↦ recv_error
  | other_errno ↦ recv_error
]
recv_tcp (received []) = recv_error
recv_tcp (received (b ∷ bytes)) = got (b ∷ bytes)

unfoldable pub send_tcp : SendCall → Sent
send_tcp (send_failed err) = elim err [
  | eagain ↦ send_block
  | econnreset ↦ send_error
  | epipe ↦ send_error
  | other_errno ↦ send_error
]
send_tcp (written zero) = send_error
send_tcp (written (suc n)) = sent (suc n)

-- SSL_read answers more than 0 or fails.
unfoldable pub recv_tls : SslRead → Recv
recv_tls (read_failed err) = elim err [
  | ssl_error_zero_return ↦ recv_error
  | ssl_error_syscall ↦ recv_error
  | ssl_error_want_read ↦ recv_block
  | ssl_error_want_write ↦ recv_block
  | ssl_error_other ↦ recv_error
]
recv_tls (read_bytes bytes) = got bytes

unfoldable pub send_tls : SslWrite → Sent
send_tls (write_failed err) = elim err [
  | ssl_error_zero_return ↦ send_error
  | ssl_error_syscall ↦ send_error
  | ssl_error_want_read ↦ send_block
  | ssl_error_want_write ↦ send_block
  | ssl_error_other ↦ send_error
]
send_tls (wrote n) = sent n

-- What the callers of recv_fn and send_fn rely on: data comes with at least one byte, and with no more
-- than were asked for.
abbrev pub RecvWithin : ℕ → Recv → Type 0
RecvWithin n recv_error = Unit
RecvWithin n recv_block = Unit
RecvWithin n (got bytes) = (0 < length bytes) × (length bytes ≤ n)

abbrev pub SentWithin : ℕ → Sent → Type 0
SentWithin n send_error = Unit
SentWithin n send_block = Unit
SentWithin n (sent k) = (0 < k) × (k ≤ n)

-- recv and SSL_read write no more bytes than they are asked for, and SSL_read that succeeds some.
abbrev pub ReceivedWithin : ℕ → RecvCall → Type 0
ReceivedWithin n (recv_failed err) = Unit
ReceivedWithin n (received bytes) = length bytes ≤ n

abbrev pub ReadWithin : ℕ → SslRead → Type 0
ReadWithin n (read_failed err) = Unit
ReadWithin n (read_bytes bytes) = (0 < length bytes) × (length bytes ≤ n)

-- recv_tcp and recv_tls keep to what their callers rely on: an end of the stream is an error, and
-- data is at least one byte and no more than asked for.
pub recv-RecvWithin :
    (n : ℕ)
    → ((c : RecvCall) → ReceivedWithin n c → RecvWithin n (recv_tcp c))
      × ((c : SslRead) → ReadWithin n c → RecvWithin n (recv_tls c))
unfolding recv_tcp recv_tls
recv-RecvWithin n = (tcp, tls)
  where
    tcp : (c : RecvCall) → ReceivedWithin n c → RecvWithin n (recv_tcp c)
    tcp (recv_failed eagain) h = tt
    tcp (recv_failed econnreset) h = tt
    tcp (recv_failed epipe) h = tt
    tcp (recv_failed other_errno) h = tt
    tcp (received []) h = tt
    tcp (received (b ∷ bytes)) h = omega (arith, h)

    tls : (c : SslRead) → ReadWithin n c → RecvWithin n (recv_tls c)
    tls (read_failed ssl_error_zero_return) h = tt
    tls (read_failed ssl_error_syscall) h = tt
    tls (read_failed ssl_error_want_read) h = tt
    tls (read_failed ssl_error_want_write) h = tt
    tls (read_failed ssl_error_other) h = tt
    tls (read_bytes bytes) h = h

pub Recv-cases :
    (t : Recv) → (t ≡ recv_error) ⊎ (t ≡ recv_block) ⊎ ((bytes : List ℕ) × (t ≡ got bytes))
Recv-cases recv_error = inl refl
Recv-cases recv_block = inr (inl refl)
Recv-cases (got bytes) = inr (inr (bytes, refl))
