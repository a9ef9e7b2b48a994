-- ===== src/Client/Samples.antt =====
-- A client without transfers, a server that relays for the user `a`, and messages to run them on.
use lwmsg.Base.{ℕ, inr, refl, arith, true, false, none, List, [], ◌∷◌, ◌++◌, replicate}
use lwmsg.Base.Memory.{be32, be64, be_decode, slice, write}
use lwmsg.Netwrap.{recv_block}
use lwmsg.Lwmp.{
  pdu_sync_hdr_mark, mt_file, hdr_mark, msg_type, total_msg_size, pdu_crc32, hdr_crc32, write_crc32,
  chunk_size, chunk_sync_hdr_mark,
}
use lwmsg.Lwmp.Crc.{crc32, crc32_table}
use lwmsg.Session.Inbound.{Server}
use lwmsg.Client.{ClientCtx, FileTransfer, Outside, poll_nothing, max_active_transfers}
use lwmsg.Client.Parse.{wire_payload}
use lwmsg.Client.Frame.{IsPdu, IsChunk}

abbrev pub env : Outside
env = record {
  recv_fn = λ k n. recv_block;
  avail_data_fn = λ k. true;
  poll = λ k round. poll_nothing;
  access = λ events name. false;
  fopen_ok = λ events name. true;
}

abbrev pub unused : FileTransfer
unused = record {
  active = false;
  fp = none;
  expected_size = 0;
  received = 0;
  sender = [];
  filename = [];
}

abbrev pub fresh : ClientCtx
fresh = record {
  connected = true;
  username = b'b' ∷ [];
  server_host = b'h' ∷ [];
  recv_buf = [];
  awaiting_resp = false;
  last_resp_code = 0;
  sending_chunks = false;
  transfer_error = false;
  transfers = replicate max_active_transfers unused;
  user_cache = [];
  opened = 0;
  recv_calls = 0;
  wait_calls = 0;
  events = [];
}

abbrev pub server : Server
server = record {
  hvfns = record {
    subj_valid_fn = λ c name. true;
    req_valid_fn = λ pdu. true;
    allow_file_transfers = true;
    max_filesize_b = 10000;
  };
  reach = λ name. true;
  user_list = b'b' ∷ 0 ∷ [];
  username = b'a' ∷ [];
}

-- A header of a file, from and to nobody, under a name that leads elsewhere.
abbrev pub file_header : ℕ → List ℕ
file_header size =
    be32 pdu_sync_hdr_mark
    ++ mt_file
      ∷ (replicate 32 0
          ++ b'.' ∷ b'.' ∷ b'/' ∷ b'x' ∷ (replicate 28 0 ++ (be64 size ++ replicate 4 0)))

-- A file in one PDU, and a chunk of nobody.
abbrev pub small_file : List ℕ
small_file = write_crc32 (file_header 3 ++ 1 ∷ 2 ∷ 3 ∷ [])

abbrev pub small_chunk : List ℕ
small_chunk = be32 chunk_sync_hdr_mark ++ 0 ∷ 2 ∷ (replicate 32 0 ++ 8 ∷ 9 ∷ [])

pub small_file-IsPdu : IsPdu small_file
unfolding write_crc32 hdr_mark hdr_crc32 pdu_crc32 msg_type total_msg_size slice be_decode write
    be32 be64 crc32 crc32_table wire_payload
small_file-IsPdu = record {
  marked = refl;
  intact = refl;
  whole = refl;
  fits = omega arith;
  not_empty = inr (omega arith);
}

pub small_chunk-IsChunk : IsChunk small_chunk
unfolding hdr_mark chunk_size slice be_decode be32
small_chunk-IsChunk = record { marked = refl; whole = refl }
