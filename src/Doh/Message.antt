-- ===== src/Doh/Message.antt =====
-- `dnsmessage.Message` of golang.org/x/net, as far as intra/doh looks into it. The package is not part
-- of the repository: its operations are a parameter, the record `Codec`.
use outline_go_tun2socks.Common.{ℕ, Bool, List, Option}

pub record DnsOption : Type 0 where
  pub code : ℕ
  pub payload : List ℕ

-- The body of an OPT record, or of any other, as its bytes.
pub data Body : Type 0 where
  opt : List DnsOption → Body
  other_body : List ℕ → Body

pub record Resource : Type 0 where
  pub header : List ℕ
  pub body : Body

-- `rest` is what the program hands through: the ID, the other flags, questions, answers and
-- authorities.
pub record Message : Type 0 where
  pub response : Bool
  pub recursion_available : Bool
  pub rcode : ℕ
  pub rest : List ℕ
  pub additionals : List Resource

-- `Unpack`, `Pack`, and the header that `SetEDNS0(65535, RCodeSuccess, false)` makes; each `none`
-- where the call returns an error.
pub record Codec : Type 0 where
  pub unpack : List ℕ → Option Message
  pub pack : Message → Option (List ℕ)
  pub edns0_header : Option (List ℕ)
