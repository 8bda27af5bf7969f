-- ===== src/Proxy/Message/Fields.antt =====
-- Addresses and the fields that hold them.
use multi_proxy.Str.{is_whitespace}
use multi_proxy.Str.Decimal.{to_string, to_string-digits, is_digit}
use multi_proxy.Str.Laws.{Lacks}
use multi_proxy.Str.Lines.{NoSpaces, to_string-NoSpaces}
use multi_proxy.Str.Trimmed.{NoSpaces-IsTrimmed}
use multi_proxy.Str.Utf8.{IsAscii}
use multi_proxy.Proxy.Http.{host_port}
use multi_proxy.Proxy.Message.{IsField, NoSpaces-IsLine}
use multi_proxy.Proxy.Message.Reader.{IsWord}
use multi_proxy.Base.{
  All-append, All-imp, Text, arith, false, refl, text, true, ℕ, ◌<◌, ◌∷◌, ◌≡◌, [], ◌≢◌,
}

pub host_port-IsAscii : (host : Text) (port : ℕ) → IsAscii host → IsAscii (host_port host port)
unfolding host_port is_digit
host_port-IsAscii host port h =
    All-append (λ c. c < 0x80) host (b':' ∷ to_string port) h
      (
        omega arith,
        All-imp (to_string port) (λ c (e : is_digit c ≡ true). ground arith)
            (to_string-digits port),
      )

pub host_port-NoSpaces : (host : Text) (port : ℕ) → NoSpaces host → NoSpaces (host_port host port)
unfolding host_port is_whitespace
host_port-NoSpaces host port h =
    All-append (λ c. is_whitespace c ≡ false) host (b':' ∷ to_string port) h
      (refl, to_string-NoSpaces port)

-- A field whose name and value are words.
pub pair-IsField :
    (name value : Text) → IsWord name → Lacks b':' name → NoSpaces value → IsField (name, value)
pair-IsField name value h no_colon h' = record {
  named = h.full;
  name_line = NoSpaces-IsLine name h.no_spaces;
  value_line = NoSpaces-IsLine value h';
  no_colon = no_colon;
  name_trimmed = NoSpaces-IsTrimmed name h.no_spaces;
  value_trimmed = NoSpaces-IsTrimmed value h';
}

pub origin-IsField : (value : Text) → NoSpaces value → IsField (text "Host", value)
unfolding text is_whitespace
origin-IsField value h =
    pair-IsField (text "Host") value
      (record { no_spaces = (refl, (refl, (refl, (refl, tt)))); full = λ e. cc }) (omega arith) h

pub host_port-ne-nil : (host : Text) (port : ℕ) → host_port host port ≢ []
unfolding host_port
host_port-ne-nil [] port e = cc
host_port-ne-nil (c ∷ host) port e = cc
