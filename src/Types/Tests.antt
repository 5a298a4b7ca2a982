-- ===== src/Types/Tests.antt =====
-- Runs of types.cpp, and its theorem at a concrete type.
use kyzddfer.Base.{◌≡◌, true, some, arith}
use kyzddfer.Types.{type_varchar, sql, finalize_type}
use kyzddfer.Types.Naming.{finalize_type-sql}

finalize_type-sql_example :
    finalize_type (λ t. true) (sql (type_varchar 255)) ≡ some (type_varchar 255)
finalize_type-sql_example = finalize_type-sql (λ t. true) 255 (omega arith) (omega arith)
