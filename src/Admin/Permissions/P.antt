-- ===== src/Admin/Permissions/P.antt =====
-- `P` of app/permissions/registry.py in Project-source/forge-server.
use navtra_license.Prelude.{String}

abbrev pub license_read : String
license_read = "platform.license.read"

abbrev pub license_issue : String
license_issue = "platform.license.issue"

abbrev pub license_update : String
license_update = "platform.license.update"

abbrev pub license_revoke : String
license_revoke = "platform.license.revoke"

abbrev pub license_delete : String
license_delete = "platform.license.delete"

abbrev pub product_read : String
product_read = "platform.product.read"

abbrev pub product_write : String
product_write = "platform.product.write"

abbrev pub product_delete : String
product_delete = "platform.product.delete"

abbrev pub customer_read : String
customer_read = "platform.customer.read"

abbrev pub customer_write : String
customer_write = "platform.customer.write"

abbrev pub customer_delete : String
customer_delete = "platform.customer.delete"

abbrev pub user_read : String
user_read = "platform.user.read"

abbrev pub user_write : String
user_write = "platform.user.write"

abbrev pub user_delete : String
user_delete = "platform.user.delete"

abbrev pub audit_read : String
audit_read = "platform.audit.read"

abbrev pub audit_export : String
audit_export = "platform.audit.export"

abbrev pub key_read : String
key_read = "system.key.read"

abbrev pub key_manage : String
key_manage = "system.key.manage"

abbrev pub settings_read : String
settings_read = "system.settings.read"

abbrev pub settings_write : String
settings_write = "system.settings.write"

abbrev pub crl_generate : String
crl_generate = "platform.crl.generate"
