-- ===== src/Examples/Written.antt =====
-- Examples: responses as RFC 9112 writes them.
use multi_proxy.Proxy.Response.Prompt.{Prompt}
use multi_proxy.Str.Decimal.{to_string}
use multi_proxy.Str.{is_whitespace}
use multi_proxy.Net.{closed, chunk, Inbox}
use multi_proxy.Net.Gives.{Gives}
use multi_proxy.Examples.Data.{http_network, peer, world}
use multi_proxy.Proxy.Message.{IsField}
use multi_proxy.Proxy.Response.{read_streaming_response}
use multi_proxy.Proxy.Response.Written.{kept_fields}
use multi_proxy.Proxy.Response.RoundTrip.{
  IsWritable, Reads, write_head, write_response, read_streaming_response-write_response,
}
use multi_proxy.Base.{List, Text, [], arith, refl, text, ◌∷◌, append-nil, length, ℕ, ◌+◌, ◌≤◌}

abbrev pub reason : Text
reason = text "OK"

abbrev pub answer_fields : List (Text × Text)
answer_fields = (text "Connection", text "close") ∷ (text "X", []) ∷ []

abbrev pub same_name : Text → Text
same_name name = name

-- The response comes in one piece after 2 milliseconds, its body with it.
abbrev pub answer : Inbox
answer = chunk 2 (write_response 204 reason answer_fields (text "hi")) closed

pub close-IsField : IsField (text "Connection", text "close")
unfolding text is_whitespace
close-IsField = record {
  named = λ e. cc;
  name_line = record { no_return = omega arith; no_feed = omega arith };
  value_line = record { no_return = omega arith; no_feed = omega arith };
  no_colon = omega arith;
  name_trimmed = record { front = refl; back = refl };
  value_trimmed = record { front = refl; back = refl };
}

empty-IsField : IsField (text "X", [])
unfolding text is_whitespace
empty-IsField = record {
  named = λ e. cc;
  name_line = record { no_return = omega arith; no_feed = omega arith };
  value_line = record { no_return = omega arith; no_feed = omega arith };
  no_colon = omega arith;
  name_trimmed = record { front = refl; back = refl };
  value_trimmed = record { front = tt; back = tt };
}

pub writable : IsWritable http_network same_name 204 reason answer_fields
unfolding text is_whitespace to_string
writable = record {
  low = omega arith;
  high = omega arith;
  reason_line = record { no_return = omega arith; no_feed = omega arith };
  fields = (close-IsField, (empty-IsField, tt));
  valid = ((refl, refl), ((refl, refl), tt));
  ascii = omega arith;
}

abbrev pub head_size : ℕ
head_size = length (write_head 204 reason answer_fields) + 4

pub small : head_size ≤ 65536
unfolding text to_string
small = omega arith

pub prompt : Prompt head_size 30000 (peer answer).inbox
unfolding text to_string
prompt = omega arith

read_streaming_response-write_response_example :
    Gives ⊥
      (Reads 204 (kept_fields same_name answer_fields) (text "hi") [])
      (read_streaming_response http_network (peer answer) 3000 world).0
read_streaming_response-write_response_example =
    read_streaming_response-write_response http_network same_name 204 reason answer_fields
      (text "hi") writable (peer answer) 3000 world (append-nil _) small prompt
