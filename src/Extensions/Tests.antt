-- ===== src/Extensions/Tests.antt =====
-- The name of one extension of src/core/extensions.cpp.
use uasm.Base.{◌≡◌, some, codes}
use uasm.Extensions.{
  bigint, extension_name, extension_from_name, extension_from_name-extension_name,
}

bigint_found : extension_from_name (codes "bigint") ≡ some bigint
unfolding extension_name
bigint_found = extension_from_name-extension_name bigint
