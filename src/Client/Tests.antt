-- ===== src/Client/Tests.antt =====
-- Runs of the client of client/clrecv.c and client/clcmd.c on samples.
use mathlib.Core.List.{append-nil}
use lwmsg.Base.{
  ℕ, ◌-◌, ◌^◌, ◌≡◌, ◌⊎◌, inl, inr, refl, arith, true, none, some, List, [], ◌∷◌, ◌++◌, length, take,
  drop, replicate, length-append, length-replicate, Returns,
}
use lwmsg.Base.Memory.{be32, be64, be_decode, slice, write}
use lwmsg.Netwrap.{Sent, send_error, sent}
use lwmsg.CmdParse.{cmdparse_tokenize, cmdparse_rest_after_tokens, skip_blanks, token, token_end}
use lwmsg.Worker.Auth.{normalize_string}
use lwmsg.Lwmp.{
  pdu_sync_hdr_mark, mt_file, mt_msg, mt_req, mt_info, subject_uname, hdr_mark, msg_type,
  total_msg_size, pdu_crc32, hdr_crc32, write_crc32, lwmp_validate_hdrs, hv_ok, hv_file_toobig,
}
use lwmsg.Lwmp.Crc.{crc32, crc32_table}
use lwmsg.Session.Inbound.{c_string}
use lwmsg.Client.{ClientCtx, recv_buf_size, emit, said}
use lwmsg.Client.Receive.{find_transfer, alloc_transfer, find_index}
use lwmsg.Client.Parse.{wire_payload, parse_step, parse_loop, clrecv_parse, handle_socket_data}
use lwmsg.Client.Frame.{with_buf, receive}
use lwmsg.Client.Steps.{frame_step}
use lwmsg.Client.Stream.{receive_all}
use lwmsg.Client.Pieces.{feed, feed-frames}
use lwmsg.Client.WholeFile.{dest_name, first_bytes, CanStore}
use lwmsg.Client.Relayed.{IsName, IsData, chunk_bytes}
use lwmsg.Client.RelayedPdu.{pdu_bytes}
use lwmsg.Client.EndToEnd.{file_events, relayed-Delivered}
use lwmsg.Client.SafeEvents.{IsSafe}
use lwmsg.Client.Command.{Wire, sent_text, cmd_msg}
use lwmsg.Client.Told.{recipient_of, text-refused}
use lwmsg.Client.Sends.{TakesSome, MsgSent, cmd_msg-Delivered}
use lwmsg.Client.Spoiled.{parse_step-empty_text}
use lwmsg.Client.Overfull.{HasHeader, handle_socket_data-overfull, parse_loop-huge}
use lwmsg.Client.Shorter.{IsHuge}
use lwmsg.Client.Ends.{Parses, clrecv_parse-Ended}
use lwmsg.Client.SafeReach.{Rounds, start, parse, Rounds-IsSafe}
use lwmsg.Client.Samples.{
  env, unused, fresh, server, file_header, small_file, small_chunk, small_file-IsPdu,
  small_chunk-IsChunk,
}

-- The two, cut within the header of the first.
abbrev two_pieces : List (List ℕ)
two_pieces = take 50 (small_file ++ small_chunk) ∷ drop 50 (small_file ++ small_chunk) ∷ []

feed-frames_example :
    feed env (with_buf [] fresh) two_pieces
    ≡ some (with_buf [] (receive_all env fresh (small_file ∷ small_chunk ∷ [])))
unfolding write_crc32 write be32 be64
feed-frames_example =
    feed-frames env fresh (small_file ∷ small_chunk ∷ []) two_pieces
      (inl small_file-IsPdu, (inr small_chunk-IsChunk, tt)) refl

-- The small file is made.
abbrev filled : ClientCtx
filled = with_buf (small_file ++ []) fresh

abbrev after_file : ClientCtx
after_file = with_buf [] (receive env fresh small_file)

abbrev one_round : Rounds env filled after_file
one_round = parse start (frame_step env fresh small_file [] (inl small_file-IsPdu))

Rounds-IsSafe_example : IsSafe after_file × Returns (λ r. IsSafe r.1) (parse_step env after_file)
Rounds-IsSafe_example = Rounds-IsSafe {ctx = filled} tt one_round

-- A file of two bytes more than a PDU holds.
abbrev big_file : List ℕ
big_file = file_header 4017 ++ replicate 4015 7

length-big_file : length big_file ≡ 4096
unfolding be32 be64
length-big_file =
    omega
      (arith, length-append (file_header 4017) (replicate 4015 7), length-replicate {A = ℕ} 4015 7)

big_file-mark : hdr_mark big_file ≡ pdu_sync_hdr_mark
unfolding hdr_mark slice be_decode be32 be64
big_file-mark = refl

big_file-file : msg_type big_file ≡ mt_file
unfolding msg_type slice be_decode be32 be64
big_file-file = refl

big_file-size : total_msg_size big_file ≡ 4017
unfolding total_msg_size slice be_decode be32 be64
big_file-size = refl

big_file-wire : wire_payload big_file ≡ 4015
unfolding wire_payload total_msg_size msg_type slice be_decode be32 be64
big_file-wire = refl

big_file-CanStore : CanStore env fresh (pdu_bytes server big_file)
unfolding find_transfer alloc_transfer find_index
big_file-CanStore = record { idle = refl; i = 0; ft = unused; slot = refl; opens = refl }

a-IsName : IsName server.username
a-IsName = record { letters = (λ e. absurd (omega (arith, e)), tt); short = omega arith }

last_two : IsData (8 ∷ 9 ∷ [])
last_two = record { full = omega arith; fits = omega arith }

relayed-Delivered_example :
    Returns
      (λ c'.
        (c'.events
          ≡ file_events 0 server.username
              (dest_name env fresh big_file)
              (total_msg_size big_file)
              (first_bytes big_file)
              ((8 ∷ 9 ∷ []) ∷ []))
        × (c'.recv_buf ≡ []))
      (feed env
        (with_buf [] fresh)
        ((pdu_bytes server big_file ++ (chunk_bytes server (8 ∷ 9 ∷ []) ++ [])) ∷ []))
relayed-Delivered_example =
    relayed-Delivered server env fresh big_file (8 ∷ 9 ∷ []) []
      ((pdu_bytes server big_file ++ (chunk_bytes server (8 ∷ 9 ∷ []) ++ [])) ∷ []) a-IsName
      big_file-mark big_file-file (omega (arith, length-big_file, big_file-wire))
      (omega (arith, big_file-size)) last_two tt (omega (arith, big_file-wire, big_file-size))
      big_file-CanStore
      (append-nil (pdu_bytes server big_file ++ (chunk_bytes server (8 ∷ 9 ∷ []) ++ [])))

-- A text message without a byte, and a large list of users.
abbrev empty_text : List ℕ
empty_text =
    write_crc32 (be32 pdu_sync_hdr_mark ++ mt_msg ∷ (b'a' ∷ replicate 31 0) ++ replicate 44 0)

abbrev list_header : ℕ → List ℕ → List ℕ
list_header type size =
    write_crc32 (be32 pdu_sync_hdr_mark ++ type ∷ (replicate 64 0 ++ (size ++ replicate 4 0)))

abbrev crowded : ClientCtx
crowded = with_buf (list_header mt_req (be64 20000) ++ replicate 16303 b'u') fresh

abbrev flooded : ClientCtx
flooded = with_buf (list_header mt_info (be64 (2 ^ 64 - 81))) fresh

parse_step-empty_text_example :
    parse_step env (with_buf (empty_text ++ small_file) fresh)
    ≡ some (
      true,
      with_buf (0 ∷ drop 1 small_file) (emit fresh (said (c_string (subject_uname empty_text)) [])),
    )
unfolding write_crc32 hdr_mark hdr_crc32 pdu_crc32 msg_type total_msg_size slice be_decode write
    be32 be64 crc32 crc32_table wire_payload
parse_step-empty_text_example =
    parse_step-empty_text env fresh empty_text (drop 1 small_file) 0xF7 refl refl refl refl refl

crowded-HasHeader : HasHeader crowded 20000
unfolding write_crc32 hdr_mark hdr_crc32 pdu_crc32 msg_type total_msg_size slice be_decode write
    be32 be64 crc32 crc32_table
crowded-HasHeader = record {
  whole = omega arith;
  marked = refl;
  intact = refl;
  not_file = λ e. absurd (omega (arith, e));
  sized = refl;
}

crowded-full : length crowded.recv_buf ≡ recv_buf_size
unfolding write_crc32 write be32 be64
crowded-full = omega (
  arith,
  length-append (list_header mt_req (be64 20000)) (replicate 16303 b'u'),
  length-replicate {A = ℕ} 16303 b'u',
)

handle_socket_data-overfull_example : handle_socket_data env crowded ≡ some crowded
handle_socket_data-overfull_example =
    handle_socket_data-overfull env crowded 20000 crowded-full crowded-HasHeader (omega arith)
      (omega arith)

flooded-HasHeader : HasHeader flooded (2 ^ 64 - 81)
unfolding write_crc32 hdr_mark hdr_crc32 pdu_crc32 msg_type total_msg_size slice be_decode write
    be32 be64 crc32 crc32_table
flooded-HasHeader = record {
  whole = omega arith;
  marked = refl;
  intact = refl;
  not_file = λ e. absurd (omega (arith, e));
  sized = refl;
}

flooded-info : msg_type flooded.recv_buf ≡ mt_info
unfolding write_crc32 msg_type slice be_decode write be32 be64
flooded-info = refl

parse_loop-huge_example : parse_loop 1000 env flooded ≡ none
parse_loop-huge_example =
    parse_loop-huge 1000 env flooded (2 ^ 64 - 81) flooded-HasHeader flooded-info (omega arith)

clrecv_parse-Ended_example :
    Returns (Parses env filled) (clrecv_parse env filled)
    ⊎ ((ctx' : ClientCtx) × Parses env filled ctx' × IsHuge ctx')
clrecv_parse-Ended_example = clrecv_parse-Ended env filled

-- The line `msg b hi`, over a network that takes one byte at a time.
abbrev line : List ℕ
line = b'm' ∷ b's' ∷ b'g' ∷ b' ' ∷ b'b' ∷ b' ' ∷ b'h' ∷ b'i' ∷ []

one_byte : ℕ → List ℕ → Sent
one_byte k [] = send_error
one_byte k (b ∷ bytes) = sent 1

one_byte-TakesSome : TakesSome one_byte
unfolding one_byte
one_byte-TakesSome k [] pos = absurd (omega arith)
one_byte-TakesSome k (b ∷ bytes) pos = (1, refl, omega arith, omega arith)

abbrev unsent_wire : Wire
unsent_wire = record { send_calls = 0; sent_bytes = [] }

abbrev hi : List ℕ
hi = b'h' ∷ b'i' ∷ []

cmd_msg-Delivered_example :
    Returns
      (MsgSent unsent_wire (sent_text (b'b' ∷ []) hi))
      (cmd_msg 5000 one_byte fresh unsent_wire line)
    × (lwmp_validate_hdrs
          (sent_text (b'b' ∷ []) hi)
          tt
          (recipient_of (sent_text (b'b' ∷ []) hi))
          server.hvfns
        ≡ hv_ok)
    × (feed env (with_buf [] fresh) (pdu_bytes server (sent_text (b'b' ∷ []) hi) ∷ [])
        ≡ some (with_buf [] (emit fresh (said server.username hi))))
unfolding cmdparse_tokenize cmdparse_rest_after_tokens skip_blanks token token_end normalize_string
cmd_msg-Delivered_example =
    cmd_msg-Delivered 5000 one_byte fresh unsent_wire line (b'm' ∷ b's' ∷ b'g' ∷ []) (b'b' ∷ [])
      server env fresh (pdu_bytes server (sent_text (b'b' ∷ []) hi) ∷ []) one_byte-TakesSome
      (omega arith) refl refl (omega arith) (omega arith)
      (λ e. absurd (omega (arith, e)), (λ e. absurd (omega (arith, e)), tt)) a-IsName
      (λ e. absurd (omega (arith, e)), tt) refl (inr (omega arith))
      (append-nil (pdu_bytes server (sent_text (b'b' ∷ []) hi)))

text-refused_example :
    lwmp_validate_hdrs
      (sent_text (b'b' ∷ []) (replicate 300 b'h'))
      tt
      (b'b' ∷ [])
      (record (server.hvfns) { max_filesize_b = 200 })
    ≡ hv_file_toobig
text-refused_example =
    text-refused (b'b' ∷ []) (replicate 300 b'h') (b'b' ∷ []) tt
      (record (server.hvfns) { max_filesize_b = 200 }) (omega arith) refl (omega arith)
