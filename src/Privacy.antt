-- ===== src/Privacy.antt =====
-- crates/covenant-privacy/src/domain.rs: the observability domain of a value and the flow context.
use covenant_language.Base.{Bool, true, false}
use covenant_language.Types.Ty.{Ty}

pub data PrivacyDomain : Type 0 where
  plaintext encrypted unknown : PrivacyDomain

unfoldable pub domain_of : Ty → PrivacyDomain
domain_of (Ty.ciphertext _) = PrivacyDomain.encrypted
domain_of Ty.unknown = PrivacyDomain.unknown
domain_of _ = PrivacyDomain.plaintext

pub data FlowContext : Type 0 where
  normal encrypted_then encrypted_otherwise on_destroy selective_disclosure : FlowContext

unfoldable pub is_encrypted_branch : FlowContext → Bool
is_encrypted_branch FlowContext.encrypted_then = true
is_encrypted_branch FlowContext.encrypted_otherwise = true
is_encrypted_branch _ = false
