-- ===== src/Pay/Fill.antt =====
-- What filling the buckets does to the tokens and to the buckets.
use wax_system_contracts.Asset.{Asset}
use wax_system_contracts.Double.{Double}
use wax_system_contracts.Token.{Token}
use wax_system_contracts.Pay.{Pay}
