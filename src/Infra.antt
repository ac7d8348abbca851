-- ===== src/Infra.antt =====
-- Infrastructure as code: apps/ops-api/src/modules/terraform and ansible.
pub mod Processes
pub mod Terraform
pub mod Ansible
