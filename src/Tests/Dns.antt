-- ===== src/Tests/Dns.antt =====
-- Tests and instances for Dns.
use bfx_outline_sdk.Prelude.{
  append_assoc, ◌∙◌, sym, ℕ, List, arith, All, [], none, some, inl, inr, ◌∷◌, ◌≡◌, ◌++◌, refl, true,
}
use bfx_outline_sdk.Io.{Bytes, Fault, Fallible, Wire, perfect, message, send, eof}
use bfx_outline_sdk.Io.Source.{Source, unread, read_full, read_full_loop}
use bfx_outline_sdk.Dns.Check.{
  Question, Message, Dnsmessage, append_request, check_response, equal_ascii_name, equal_bytes,
  fold_case, Answers,
}
use bfx_outline_sdk.Dns.Query.{
  accept, datagram_loop, udp_query, query_datagram, stream_query, query_stream, stream_request,
  stream_response,
}
use bfx_outline_sdk.Dns.Query.Accepted.{Ignored, udp_query-Answers}
use bfx_outline_sdk.Dns.Query.Frames.{read_frame, read_frame-stream_request}

-- A message is the id, and a byte for the name of the only question.
toy_unpack : Bytes → Fallible Message
toy_unpack (id ∷ b ∷ []) = inr (record {
  id = id;
  response = true;
  questions = record { name = b ∷ []; qtype = 1; class = 1 } ∷ [];
  body = [];
})
toy_unpack _ = inl (message "cannot unpack")

abbrev toy : Dnsmessage
toy = record {
  Builder = Bytes;
  new_builder = λ buf id. buf ++ id ∷ [];
  start_questions = λ b. inr b;
  add_question = λ q b. inr (b ++ q.name);
  start_additionals = λ b. inr b;
  set_edns0 = λ n. inr n;
  opt_resource = λ n b. inr b;
  finish = λ b. inr b;
  unpack = toy_unpack;
}

-- "a", and the answers: not a message, another id, a read of no bytes, and "A".
abbrev question : Question
question = record { name = 97 ∷ []; qtype = 1; class = 1 }

abbrev reply : Message
reply = record {
  id = 5;
  response = true;
  questions = record { name = 65 ∷ []; qtype = 1; class = 1 } ∷ [];
  body = [];
}

abbrev forged : List (Bytes × Fault)
forged = (1 ∷ [], none) ∷ (6 ∷ 65 ∷ [], some eof) ∷ ([], none) ∷ []

accepts : accept toy 5 question (5 ∷ 65 ∷ []) ≡ inr reply
unfolding accept check_response equal_ascii_name equal_bytes fold_case toy_unpack
accepts = refl

ignores : All (Ignored toy 5 question) forged
unfolding accept check_response equal_ascii_name equal_bytes fold_case toy_unpack
ignores = ((refl, (_, refl)), ((refl, (_, refl)), ((refl, (_, refl)), tt)))

abbrev fresh : Wire perfect
fresh = record { state = tt; sent = [] }

udp_result :
    (udp_query toy perfect (inr (fresh, forged ++ (5 ∷ 65 ∷ [], none) ∷ [])) 5 question eof).result
    ≡ inr reply
unfolding udp_query query_datagram append_request send datagram_loop accept check_response
    equal_ascii_name equal_bytes fold_case toy_unpack
udp_result = refl

udp_query-Answers_example : Answers 5 question reply
udp_query-Answers_example =
    udp_query-Answers toy perfect (inr (fresh, forged ++ (5 ∷ 65 ∷ [], none) ∷ [])) 5 question eof
      reply udp_result

-- The frame in pieces.
abbrev framed : Source
framed = (0 ∷ [], none) ∷ (2 ∷ 5 ∷ [], none) ∷ (65 ∷ 9 ∷ [], none) ∷ []

stream_result : (stream_query toy perfect (inr (fresh, framed)) 5 question).result ≡ inr reply
unfolding stream_query query_stream stream_request stream_response append_request send
    check_response equal_ascii_name equal_bytes fold_case toy_unpack read_full read_full_loop
stream_result = refl

appends :
    (id : ℕ) (q : Question) (buf out : Bytes)
    → append_request toy id q buf ≡ inr out
    → (m : Bytes) × (out ≡ buf ++ m)
unfolding append_request
appends id q buf out h = (id ∷ q.name, sym (cc h) ∙ append_assoc buf (id ∷ []) q.name)

requests : stream_request toy 5 question ≡ inr (0 ∷ 2 ∷ 5 ∷ 97 ∷ [])
unfolding stream_request append_request
requests = refl

read_frame-stream_request_example :
    (m : Bytes) × (src' : Source) × (append_request toy 5 question (0 ∷ 0 ∷ []) ≡ inr (0 ∷ 0 ∷ m))
    × (read_frame ((0 ∷ 2 ∷ 5 ∷ 97 ∷ [], none) ∷ []) ≡ inr (m, src'))
    × (unread src' ≡ [])
read_frame-stream_request_example =
    read_frame-stream_request toy appends 5 question (0 ∷ 2 ∷ 5 ∷ 97 ∷ []) []
      ((0 ∷ 2 ∷ 5 ∷ 97 ∷ [], none) ∷ []) requests (omega arith, refl, tt) refl
