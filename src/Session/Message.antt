-- ===== src/Session/Message.antt =====
-- server/worker.c: the messages that the server makes itself.
use Prim.Native.Char.{code}
use Prim.Native.String.{String}
use lwmsg.Base.{ℕ, ◌+◌, List, [], ◌∷◌, ◌++◌, some, none, length, take, replicate}
use lwmsg.Base.Memory.{be32}
use lwmsg.Lwmp.{lwmp_hdr_size, lwmp_prepare_response, mt_info, resp_codes, hv_inval_subj}
use lwmsg.Session.{Outgoing}

-- What xmalloc gives, of which every byte is written before it is read.
abbrev pub xmalloc : ℕ → List ℕ
xmalloc n = replicate n 0

abbrev pub msg_node_create : List ℕ → List ℕ → Outgoing
msg_node_create buf subject_name = record { buf = buf; buf_offset = 0; subject_name = subject_name }

-- A response without a text, and one with a text.
unfoldable pub info_message : ℕ → Outgoing
info_message resp =
    msg_node_create
      (lwmp_prepare_response (xmalloc lwmp_hdr_size) mt_info (some (be32 resp)) 4 none) []

unfoldable pub text_message : ℕ → List ℕ → Outgoing
text_message resp text =
    msg_node_create
      (lwmp_prepare_response (xmalloc (lwmp_hdr_size + length text + 1)) mt_info (some (be32 resp))
        4 (some text))
      []

-- The bytes of a string literal.
unfoldable pub text_bytes : String → List ℕ
text_bytes String.[] = []
text_bytes (String.◌∷◌ c text) = code c ∷ text_bytes text

-- The response that a subject is disconnected; snprintf keeps what fits `buf`.
unfoldable pub disconnect_notice : List ℕ → Outgoing
disconnect_notice subject_name = text_message (resp_codes hv_inval_subj) (
    take 127 (
      text_bytes "Sender "
      ++ subject_name
      ++ text_bytes " has disconnected, the latest message may have been partially delivered."))
